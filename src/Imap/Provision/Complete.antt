-- ===== src/Imap/Provision/Complete.antt =====
-- internal/imapbackend/provision.go: every standard folder is there afterwards.
use mailroom.Prelude.{
  All, Bool-cases, List, Option-cases, Text, [], any, arith, find_first, inl, inr, nat_eq, none,
  refl, same_refl, some, text_eq, true, ℕ, ◌++◌, ◌==◌, ◌∷◌, ◌≡◌, Bool, ◌∙◌, subst, sym,
}
use mailroom.Maildir.Paths.{FilePath, folder_path}
use mailroom.Store.{Db, Mailbox as Row}
use mailroom.Store.Mailboxes.{ensure_mailbox, get_mailbox, named}
use mailroom.Imap.Disk.Paths.{path_eq}
use mailroom.Imap.Provision.{Place, provision_folders}

-- The folder has its row and its directory.
abbrev pub HasFolder : ℕ → FilePath → Place → Text → Type 0
HasFolder id root s name =
    ((row : Row) × (get_mailbox id name s.0 ≡ some row))
    × (any (λ d. d == folder_path root name) s.1 ≡ true)

find_first-append_some :
    (p : Row → Bool) (rows : List Row) (row r : Row)
    → find_first p rows ≡ some row
    → find_first p (rows ++ r ∷ []) ≡ some row
unfolding find_first
find_first-append_some p [] row r e = cc e
find_first-append_some p (x ∷ rows) row r e = ground (arith, find_first-append_some p rows row r, e)

find_first-append_last :
    (p : Row → Bool) (rows : List Row) (r : Row)
    → find_first p rows ≡ none
    → p r ≡ true
    → find_first p (rows ++ r ∷ []) ≡ some r
unfolding find_first
find_first-append_last p [] r e h = ground (arith, h)
find_first-append_last p (x ∷ rows) r e h = ground (arith, find_first-append_last p rows r, e)

any-append_left :
    (p : FilePath → Bool) (dirs more : List FilePath)
    → any p dirs ≡ true
    → any p (dirs ++ more) ≡ true
unfolding any
any-append_left p [] more h = cc h
any-append_left p (d ∷ dirs) more h = ground (arith, any-append_left p dirs more)

any-append_last :
    (p : FilePath → Bool) (dirs : List FilePath) (d : FilePath)
    → p d ≡ true
    → any p (dirs ++ d ∷ []) ≡ true
unfolding any
any-append_last p [] d h = ground (arith, h)
any-append_last p (x ∷ dirs) d h = ground (arith, any-append_last p dirs d h)

-- A row stays when another mailbox is ensured.
get_mailbox-ensure :
    (now id user_id : ℕ) (name other : Text) (db : Db) (row : Row)
    → get_mailbox user_id other db ≡ some row
    → get_mailbox user_id other (ensure_mailbox now id name db).0 ≡ some row
unfolding get_mailbox ensure_mailbox
get_mailbox-ensure now id user_id name other db row e =
    elim (Option-cases (get_mailbox id name db)) [
      | inr (r, there) ↦ rw (ensure_mailbox, there) e
      | inl absent ↦
          rw (ensure_mailbox, absent)
            (find_first-append_some (named user_id other) db.mailboxes row _ e)
    ]

ensure_mailbox-there :
    (now id : ℕ) (name : Text) (db : Db)
    → get_mailbox id name (ensure_mailbox now id name db).0 ≡ some (ensure_mailbox now id name db).1
unfolding get_mailbox ensure_mailbox
ensure_mailbox-there now id name db = elim (Option-cases (get_mailbox id name db)) [
  | inr (r, there) ↦ rw (ensure_mailbox, there) there
  | inl absent ↦
      rw (ensure_mailbox, absent)
        (find_first-append_last (named id name) db.mailboxes _ absent
          (rw (same_refl id, same_refl name) refl))
]

ensure_mailbox-users :
    (now id : ℕ) (name : Text) (db : Db) → (ensure_mailbox now id name db).0.users ≡ db.users
unfolding ensure_mailbox
ensure_mailbox-users now id name db = elim (Option-cases (get_mailbox id name db)) [
  | inr (r, there) ↦ rw (ensure_mailbox, there) refl
  | inl absent ↦ rw (ensure_mailbox, absent) refl
]

module _ (broken : FilePath → Bool) (now : ℕ) (base root : FilePath) (id : ℕ) where
  abbrev after : List Text → Place → Place × Bool
  after names s = provision_folders broken now base root id names s

  folders-kept :
      (names : List Text) (name : Text) (s : Place)
      → HasFolder id root s name
      → HasFolder id root (after names s).0 name
  unfolding provision_folders
  folders-kept [] name (db, dirs) h = h
  folders-kept (n ∷ names) name (db, dirs) ((row, e), d) =
      let db1 = (ensure_mailbox now id n db).0 in
      let row1 = get_mailbox-ensure now id id n name db row e in
      elim (Bool-cases (broken (folder_path root n))) [
        | inl stops ↦ rw (provision_folders, stops) ((row, row1), d)
        | inr goes_on ↦
            rw (provision_folders, goes_on)
              (folders-kept names name (db1, dirs ++ folder_path root n ∷ [])
                ((row, row1), any-append_left _ dirs (folder_path root n ∷ []) d))
      ]

  pub provision_folders-All :
      (names : List Text) (s : Place)
      → (after names s).1 ≡ true
      → ((after names s).0.0.users ≡ s.0.users) × All (HasFolder id root (after names s).0) names
  unfolding provision_folders
  provision_folders-All [] (db, dirs) e = (refl, tt)
  provision_folders-All (n ∷ names) (db, dirs) e =
      let db1 = (ensure_mailbox now id n db).0 in
      let s1 : Place = (db1, dirs ++ folder_path root n ∷ []) in
      elim (Bool-cases (broken (folder_path root n))) [
        | inl stops ↦ absurd (cc (rw (provision_folders, stops) at e))
        | inr goes_on ↦
            let same : after (n ∷ names) (db, dirs) ≡ after names s1 =
              rw (provision_folders, goes_on) refl in
            let (users, rest) =
              provision_folders-All names s1 (rw (provision_folders, goes_on) at e) in
            let first = folders-kept names n s1 (
              (_, ensure_mailbox-there now id n db),
              any-append_last _ dirs (folder_path root n) (same_refl (folder_path root n)),
            ) in
            subst (λ r. (r.0.0.users ≡ db.users) × All (HasFolder id root r.0) (n ∷ names))
              (sym same) (users ∙ ensure_mailbox-users now id n db, (first, rest))
      ]
