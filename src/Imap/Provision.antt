-- ===== src/Imap/Provision.antt =====
-- internal/imapbackend/provision.go: the standard folders of a new mailbox. The directories that Init
-- has made are a list, and `broken` says for which it fails.
pub mod Complete
use mailroom.Prelude.{
  Bool, List, Text, [], codes, false, if◌then◌else◌, nat_eq, none, some, text_eq, true, ℕ, ◌++◌,
  ◌∷◌,
}
use mailroom.Address.{split}
use mailroom.Maildir.Paths.{FilePath, default_folders, folder_path, user_root}
use mailroom.Store.{Db, User}
use mailroom.Store.Mailboxes.{ensure_mailbox}

abbrev pub Place : Type 0
Place = Db × List FilePath

module _ (broken : FilePath → Bool) (now : ℕ) (base : FilePath) where
  unfoldable pub provision_folders : FilePath → ℕ → List Text → Place → Place × Bool
  unfolding ensure_mailbox folder_path
  provision_folders root id [] s = (s, true)
  provision_folders root id (name ∷ names) (db, dirs) =
      let db1 = (ensure_mailbox now id name db).0 in
      let rest = provision_folders root id names (db1, dirs ++ folder_path root name ∷ []) in
      if broken (folder_path root name) then ((db1, dirs), false) else rest

  -- ProvisionMailboxes
  unfoldable pub provision_mailboxes : User → Place → Place × Bool
  unfolding split user_root provision_folders
  provision_mailboxes u s = elim (split u.email) [
    | none ↦ (s, false)
    | some (local_part, domain) ↦
        provision_folders (user_root base domain local_part) u.id (codes "INBOX" ∷ default_folders)
          s
  ]
