-- ===== src/Imap/User.antt =====
-- internal/imapbackend/user.go: the folders of a user, which all sessions of the user share, over the
-- disk and the rows of the store. One call at a time, as its mutex makes it.
pub mod Removal
pub mod Renaming
mod Tests
use mailroom.Prelude.{
  Bool, List, Option, Text, [], codes, equal_fold, if◌then◌else◌, insert, lookup, nat_eq, none,
  remove, some, text_eq, trim_right, ℕ, ◌==◌, ◌∷◌, any, not, sort_by, text_ltb, is_nil,
}
use mailroom.Address.{split}
use mailroom.Maildir.{Faults, Maildir, err, init, io, ok}
use mailroom.Maildir.Paths.{FilePath, folder_path, user_root}
use mailroom.Store.{Mailbox as Row, ok as stored, err as refusal, Db, Result, User}
use mailroom.Store.Mailboxes.{
  delete_mailbox, ensure_mailbox, get_mailbox, list_mailboxes, rename_mailbox,
  set_mailbox_subscribed,
}
use mailroom.Imap.{
  Answer, already_exists, database_failure, done, failed, maildir_failure, no_such_mailbox,
  store_failure,
}
use mailroom.Imap.Disk.{Disk, maildir_at, mkdir_all, remove_all, rename_dir}
use mailroom.Imap.Disk.Paths.{path_eq}
use mailroom.Imap.Flags.{FlagNames}
use mailroom.Imap.Folder.{Folder, append_bytes}
use mailroom.Imap.Mailbox.{Mailbox, reload}
use mailroom.Imap.Status.{
  ListData, ListOptions, StatusData, StatusOptions, list_data, status_data, no_select,
}

-- A mailbox in memory with its directory.
pub record Shared : Type 0 where
  pub root : FilePath
  pub mailbox : Mailbox

pub record State : Type 0 where
  pub disk : Disk
  pub db : Db
  pub mailboxes : List (Text × Shared)

-- Which statements of Rename the database fails to run.
pub record DbFaults : Type 0 where
  pub get : Bool
  pub update : Bool

-- RenameMailbox; none is an error of the database, which leaves the row.
unfoldable pub rename_row : DbFaults → ℕ → Text → Db → Db × Option (Result (Unit {0}))
unfolding rename_mailbox
rename_row g id name db =
    if g.update
    then (db, none)
    else let (db1, answer) = rename_mailbox id name db in (db1, some answer)

-- canonicalMailboxName
unfoldable pub canonical_mailbox_name : Text → Text
unfolding trim_right equal_fold
canonical_mailbox_name name =
    let trimmed = trim_right (λ c. c == b'/') name in
    if equal_fold trimmed (codes "INBOX") then codes "INBOX" else trimmed

abbrev pub stored_at : FilePath → Maildir → Disk → Disk
stored_at p md disk = insert p md disk

-- root: an address without a domain has the root of two empty names.
unfoldable pub root_of : FilePath → User → FilePath
unfolding split user_root
root_of base u = elim (split u.email) [
  | none ↦ user_root base [] []
  | some (local_part, domain) ↦ user_root base domain local_part
]

abbrev status_answer : Answer StatusData → Option StatusData
status_answer (done reported) = some reported
status_answer (failed e) = none

module _ (names : FlagNames) (f : Faults) (now : ℕ) (base : FilePath) (u : User) where
  unfoldable pub folder_root : Text → FilePath
  unfolding folder_path root_of
  folder_root name = folder_path (root_of base u) name

  -- A new mailbox over a row, before its messages are read.
  abbrev pub fresh : Row → Mailbox
  fresh row = record {
    db_id = row.id;
    name = row.name;
    uid_validity = row.uid_validity;
    subscribed = row.subscribed;
    messages = [];
  }

  -- newMailbox
  unfoldable pub new_mailbox : Row → Disk × Db → (Disk × Db) × Answer Shared
  unfolding init maildir_at mkdir_all insert reload folder_root
  new_mailbox row (disk, db) =
      let p = folder_root row.name in
      elim (init f (maildir_at p disk)) [
        | err e ↦ ((disk, db), failed (maildir_failure e))
        | ok md ↦
            let disk1 = stored_at p md (mkdir_all p disk) in
            let (db1, mbox, answer) = reload names f now md db (fresh row) in
            elim answer [
              | failed e ↦ ((disk1, db1), failed e)
              | done _ ↦ ((disk1, db1), done (record { root = p; mailbox = mbox }))
            ]
      ]

  -- The mailbox goes into the map under its name.
  unfoldable pub keep_mailbox : Text → State → (Disk × Db) × Answer Shared → State × Answer Shared
  unfolding insert
  keep_mailbox name s ((disk, db), failed e) = (record s { disk = disk; db = db }, failed e)
  keep_mailbox name s ((disk, db), done mbox) =
      (record { disk = disk; db = db; mailboxes = insert name mbox s.mailboxes }, done mbox)

  -- mailboxLocked, on a canonical name
  unfoldable pub mailbox_locked : Text → State → State × Answer Shared
  unfolding lookup get_mailbox new_mailbox keep_mailbox
  mailbox_locked name s = elim (lookup name s.mailboxes) [
    | some mbox ↦ (s, done mbox)
    | none ↦ elim (get_mailbox u.id name s.db) [
      | none ↦ (s, failed no_such_mailbox)
      | some row ↦ keep_mailbox name s (new_mailbox row (s.disk, s.db))
    ]
  ]

  -- mailbox
  unfoldable pub mailbox : Text → State → State × Answer Shared
  unfolding mailbox_locked canonical_mailbox_name
  mailbox name s = mailbox_locked (canonical_mailbox_name name) s

  -- Create
  unfoldable pub create : Text → State → State × Answer Shared
  unfolding canonical_mailbox_name get_mailbox ensure_mailbox new_mailbox keep_mailbox
  create name s =
      let canonical = canonical_mailbox_name name in
      elim (get_mailbox u.id canonical s.db) [
        | some _ ↦ (s, failed already_exists)
        | none ↦
            let (db1, row) = ensure_mailbox now u.id canonical s.db in
            keep_mailbox canonical s (new_mailbox row (s.disk, db1))
      ]

  -- The rest of Delete, with the mailbox at hand.
  unfoldable pub delete_at : Text → Shared → State → State × Answer (Unit {0})
  unfolding delete_mailbox remove_all remove
  delete_at name mbox s =
      let db1 = delete_mailbox mbox.mailbox.db_id s.db in
      if f.unlink then (record s { db = db1 }, failed (maildir_failure io)) else (
        record {
          disk = remove_all mbox.root s.disk;
          db = db1;
          mailboxes = remove name s.mailboxes;
        },
        done tt,
      )

  -- A call goes on with the mailbox that another one gave.
  unfoldable pub with_mailbox :
      {A : Type 0} → (Shared → State → State × Answer A) → State × Answer Shared → State × Answer A
  with_mailbox next (s, failed e) = (s, failed e)
  with_mailbox next (s, done mbox) = next mbox s

  -- Delete
  unfoldable pub delete : Text → State → State × Answer (Unit {0})
  unfolding canonical_mailbox_name mailbox_locked with_mailbox delete_at
  delete name s =
      let canonical = canonical_mailbox_name name in
      with_mailbox (delete_at canonical) (mailbox_locked canonical s)

  -- The rest of Rename once the mailbox is found: the directory is moved before the row is changed, and
  -- stays moved where the row is not.
  unfoldable pub rename_at : DbFaults → Text → Text → Shared → State → State × Answer (Unit {0})
  unfolding get_mailbox folder_root rename_dir rename_row insert remove
  rename_at g old new mbox s =
      let new_root = folder_root new in
      let renamed = record mbox { root = new_root; mailbox = record mbox.mailbox { name = new } } in
      let row = if g.get then none else get_mailbox u.id new s.db in
      elim row [
        | some _ ↦ (s, failed already_exists)
        | none ↦
            if f.rename
            then (s, failed (maildir_failure io))
            else elim (rename_dir mbox.root new_root s.disk) [
              | none ↦ (s, failed (maildir_failure io))
              | some disk1 ↦
                  let (db1, answer) = rename_row g mbox.mailbox.db_id new s.db in
                  elim answer [
                    | none ↦ (record s { disk = disk1 }, failed database_failure)
                    | some (refusal e) ↦
                        (record s { disk = disk1; db = db1 }, failed (store_failure e))
                    | some (stored _) ↦ (
                      record {
                        disk = disk1;
                        db = db1;
                        mailboxes = remove old (insert new renamed s.mailboxes);
                      },
                      done tt,
                    )
                  ]
            ]
      ]

  -- Rename
  unfoldable pub rename : DbFaults → Text → Text → State → State × Answer (Unit {0})
  unfolding canonical_mailbox_name mailbox_locked with_mailbox rename_at
  rename g old_name new_name s =
      let old = canonical_mailbox_name old_name in
      with_mailbox (rename_at g old (canonical_mailbox_name new_name)) (mailbox_locked old s)

  abbrev put : Text → Shared → State → State
  put name mbox s = record s { mailboxes = insert name mbox s.mailboxes }

  -- setSubscribed, behind Subscribe and Unsubscribe
  unfoldable pub set_subscribed : Bool → Text → State → State × Answer (Unit {0})
  unfolding canonical_mailbox_name mailbox with_mailbox insert set_mailbox_subscribed
  set_subscribed value name s =
      with_mailbox
        (λ mbox s1. (
          record (put (canonical_mailbox_name name)
              (record mbox { mailbox = record mbox.mailbox { subscribed = value } }) s1) {
                db = set_mailbox_subscribed mbox.mailbox.db_id value s1.db;
              },
          done tt,
        ))
        (mailbox name s)

  -- statusDataLocked: a reload that fails is not noticed.
  unfoldable pub status_of : StatusOptions → Text → Shared → State → State × Answer StatusData
  unfolding reload maildir_at status_data insert
  status_of options name mbox s =
      let (db1, mailbox1, _) = reload names f now (maildir_at mbox.root s.disk) s.db mbox.mailbox in
      (
        record (put name (record mbox { mailbox = mailbox1 }) s) { db = db1 },
        done (status_data names options mailbox1),
      )

  -- Status
  unfoldable pub status : StatusOptions → Text → State → State × Answer StatusData
  unfolding mailbox with_mailbox status_of canonical_mailbox_name
  status options name s =
      with_mailbox (status_of options (canonical_mailbox_name name)) (mailbox name s)

  -- A call of a folder with its Maildir, whose outcome goes back to the disk and into the map.
  unfoldable pub in_folder :
      {A : Type 0}
      → Text
      → (Folder × Db → (Folder × Db) × Answer A)
      → Shared
      → State
      → State × Answer A
  unfolding maildir_at insert
  in_folder name call mbox s =
      let folder : Folder = record {
        maildir = maildir_at mbox.root s.disk;
        mailbox = mbox.mailbox;
      } in
      let ((folder1, db1), answer) = call (folder, s.db) in
      (
        record (put name (record mbox { mailbox = folder1.mailbox }) s) {
          disk = insert mbox.root folder1.maildir s.disk;
          db = db1;
        },
        answer,
      )

  -- Append, of a message that is read whole; any failure to open the folder is a missing folder.
  unfoldable pub append : Text → Text → Option ℕ → List Text → Text → State → State × Answer ℕ
  unfolding mailbox in_folder append_bytes canonical_mailbox_name
  append unique name date flags buf s =
      let (s1, answer) = mailbox name s in
      elim answer [
        | failed _ ↦ (s1, failed no_such_mailbox)
        | done mbox ↦
            in_folder (canonical_mailbox_name name) (append_bytes names f now unique buf date flags)
              mbox s1
      ]

  -- The first loop of List: every mailbox of the user is opened.
  unfoldable pub open_all : List Row → State → State × Answer (Unit {0})
  unfolding lookup new_mailbox keep_mailbox with_mailbox
  open_all [] s = (s, done tt)
  open_all (row ∷ rows) s =
      let rest = λ (s1 : State). open_all rows s1 in
      elim (lookup row.name s.mailboxes) [
        | some _ ↦ rest s
        | none ↦
            with_mailbox (λ _ s1. rest s1)
              (keep_mailbox row.name s (new_mailbox row (s.disk, s.db)))
      ]

  -- Mailbox.list of the folders whose names match; the status of each is in the state that the ones
  -- before it leave.
  unfoldable pub list_matching :
      (Text → Bool)
      → ListOptions
      → List (Text × Shared)
      → State
      → State × List (ListData × Option StatusData)
  unfolding list_data status_of
  list_matching matches options [] s = (s, [])
  list_matching matches options ((name, mbox) ∷ more) s =
      let skipped = list_matching matches options more s in
      if not (matches mbox.mailbox.name) then skipped else elim (list_data options mbox.mailbox) [
        | none ↦ skipped
        | some listed ↦ elim options.return_status [
          | none ↦ let (s1, rest) = skipped in (s1, (listed, none) ∷ rest)
          | some wanted ↦
              let (s1, answer) = status_of wanted name mbox s in
              let (s2, rest) = list_matching matches options more s1 in
              (s2, (listed, status_answer answer) ∷ rest)
        ]
      ]

  -- List; `matches` is the library's test of a name against a pattern. The folders are written in the
  -- order of their names.
  unfoldable pub list :
      (Text → Text → Bool)
      → List Text
      → ListOptions
      → State
      → State × Answer (List (ListData × Option StatusData))
  unfolding list_mailboxes open_all list_matching sort_by any text_ltb
  list matches patterns options s =
      let (s1, answer) = open_all (list_mailboxes u.id s.db) s in
      elim answer [
        | failed e ↦ (s1, failed e)
        | done _ ↦
            if is_nil patterns
            then (s1, done ((record { mailbox = []; attrs = no_select ∷ [] }, none) ∷ []))
            else let (s2, l) =
                list_matching (λ name. any (matches name) patterns) options s1.mailboxes s1 in
              (s2, done (sort_by (λ a b. text_ltb a.0.mailbox b.0.mailbox) l))
      ]
