-- ===== src/Imap/User/Removal.antt =====
-- internal/imapbackend/user.go: what Delete takes along.
use mailroom.Prelude.{
  All, Bool, Bool-cases, Lacks, List, Text, [], ap, arith, codes, equal_fold, false, find_first,
  inl, inr, keep, lookup, lookup-remove, nat_beq_iff, nat_eq, none, not, refl, remove, same_refl,
  some, text_eq, true, ℕ, ◌==◌, ◌∙◌, ◌∷◌, ◌≡◌, ◌≢◌,
}
use mailroom.Maildir.{Faults}
use mailroom.Maildir.Paths.{FilePath}
use mailroom.Maildir.Paths.Folders.{folder_path_inside}
use mailroom.Store.{Mailbox as Row, Db, User}
use mailroom.Store.Mailboxes.{delete_mailbox, get_mailbox, named}
use mailroom.Imap.{done, failed, no_such_mailbox}
use mailroom.Imap.Disk.{remove_all}
use mailroom.Imap.Disk.Laws.{at, lookup-remove_all, under-below, under_self, under-sibling}
use mailroom.Imap.Disk.Paths.{path_eq}
use mailroom.Imap.Flags.{FlagNames}
use mailroom.Imap.User.{
  Shared, State, canonical_mailbox_name, delete, delete_at, folder_root, mailbox_locked, root_of,
  with_mailbox,
}

-- A folder name that is no path: not empty, not INBOX in any case, not "." and without a slash.
pub record IsPlain (folder : Text) : Type 0 where
  pub filled : folder ≢ []
  pub no_dot : folder ≢ codes "."
  pub no_inbox : equal_fold folder (codes "INBOX") ≡ false
  pub no_slash : Lacks b'/' folder

pub folder_root-IsPlain :
    (names : FlagNames) (f : Faults) (now : ℕ) (base : FilePath) (u : User) (folder : Text)
    → IsPlain folder
    → folder_root names f now base u folder ≡ at (root_of base u) ((b'.' ∷ folder) ∷ [])
unfolding folder_root
folder_root-IsPlain names f now base u folder p =
    folder_path_inside (root_of base u) folder p.filled p.no_dot p.no_inbox p.no_slash

find_first-kept :
    (p q : Row → Bool) (row : Row) (rows : List Row)
    → find_first p rows ≡ some row
    → q row ≡ true
    → find_first p (keep q rows) ≡ some row
unfolding find_first keep
find_first-kept p q row [] e h = cc
find_first-kept p q row (r ∷ rows) e h = elim (Bool-cases (p r)) [
  | inl here ↦
      let it : r ≡ row = cc (rw (here) at e) in
      let kept : q r ≡ true = cc (it, h) in rw (kept, here) (ap some it)
  | inr other ↦ ground (arith, find_first-kept p q row rows, other, e, h)
]

-- Rows of other mailboxes are found as before.
get_mailbox-delete :
    (user_id id : ℕ) (name : Text) (db : Db) (row : Row)
    → get_mailbox user_id name db ≡ some row
    → row.id ≢ id
    → get_mailbox user_id name (delete_mailbox id db) ≡ some row
unfolding get_mailbox delete_mailbox
get_mailbox-delete user_id id name db row e h =
    find_first-kept (named user_id name) (λ m. not (m.id == id)) row db.mailboxes e (ground arith)

-- The one row of the name has the identifier.
abbrev pub OnlyRow : ℕ → Text → ℕ → Row → Type 0
OnlyRow user_id name id row = named user_id name row ≡ true → row.id ≡ id

none_named :
    (user_id id : ℕ) (name : Text) (rows : List Row)
    → All (OnlyRow user_id name id) rows
    → find_first (named user_id name) (keep (λ m. not (m.id == id)) rows) ≡ none
unfolding find_first keep
none_named user_id id name [] h = refl
none_named user_id id name (r ∷ rows) h =
    ground (arith, none_named user_id id name rows, h, nat_beq_iff r.id id)

get_mailbox-gone :
    (user_id : ℕ) (name : Text) (id : ℕ) (db : Db)
    → All (OnlyRow user_id name id) db.mailboxes
    → get_mailbox user_id name (delete_mailbox id db) ≡ none
unfolding get_mailbox delete_mailbox
get_mailbox-gone user_id name id db h = none_named user_id id name db.mailboxes h

mailbox_locked-missing :
    (names : FlagNames) (f : Faults) (now : ℕ) (base : FilePath) (u : User) (name : Text)
    (s : State)
    → lookup name s.mailboxes ≡ none
    → get_mailbox u.id name s.db ≡ none
    → (mailbox_locked names f now base u name s).1 ≡ failed no_such_mailbox
unfolding mailbox_locked
mailbox_locked-missing names f now base u name s e g = rw (mailbox_locked, e, g) refl

module _ (names : FlagNames) (f : Faults) (now : ℕ) (base : FilePath) (u : User) where
  delete-State :
      (name : Text) (s : State) (mbox : Shared)
      → lookup (canonical_mailbox_name name) s.mailboxes ≡ some mbox
      → f.unlink ≡ false
      → delete names f now base u name s ≡ (
        record {
          disk = remove_all mbox.root s.disk;
          db = delete_mailbox mbox.mailbox.db_id s.db;
          mailboxes = remove (canonical_mailbox_name name) s.mailboxes;
        },
        done tt,
      )
  unfolding delete mailbox_locked with_mailbox delete_at
  delete-State name s mbox there works = rw (delete, mailbox_locked, there, delete_at, works) refl

-- Deleting INBOX is not refused, and its directory is that of the user: with it go the directories
-- of all folders of the user, whose rows stay behind. Of every other plain folder of the user, the
-- directory is gone afterwards and the row is found as before.
pub delete_inbox_wipes :
    (names : FlagNames) (f : Faults) (now : ℕ) (base : FilePath) (u : User) (name folder : Text)
    (s : State) (mbox : Shared) (row : Row)
    → canonical_mailbox_name name ≡ codes "INBOX"
    → lookup (codes "INBOX") s.mailboxes ≡ some mbox
    → mbox.root ≡ root_of base u
    → f.unlink ≡ false
    → IsPlain folder
    → get_mailbox u.id folder s.db ≡ some row
    → row.id ≢ mbox.mailbox.db_id
    → let (s1, answer) = delete names f now base u name s in
      (answer ≡ done tt)
      × (lookup (folder_root names f now base u folder) s1.disk ≡ none)
      × (get_mailbox u.id folder s1.db ≡ some row)
delete_inbox_wipes names f now base u name folder s mbox row inbox there at_root works plain e
      other =
    let here : lookup (canonical_mailbox_name name) s.mailboxes ≡ some mbox = rw (inbox) there in
    rw (delete-State names f now base u name s mbox here works) (
      refl,
      rw
          (
            lookup-remove_all mbox.root (folder_root names f now base u folder) s.disk,
            folder_root-IsPlain names f now base u folder plain,
            at_root,
            under-below (root_of base u) ((b'.' ∷ folder) ∷ []),
          )
          refl,
      get_mailbox-delete u.id mbox.mailbox.db_id folder s.db row e other,
    )

-- Deleting a plain folder takes its directory and leaves every other plain folder of the user alone:
-- the other's Maildir and its row are found as before. A later call does not find the deleted one,
-- where the store had one row of its name.
pub delete-others :
    (names : FlagNames) (f : Faults) (now : ℕ) (base : FilePath) (u : User) (name folder : Text)
    (s : State) (mbox : Shared) (row : Row)
    → lookup (canonical_mailbox_name name) s.mailboxes ≡ some mbox
    → mbox.root ≡ folder_root names f now base u (canonical_mailbox_name name)
    → f.unlink ≡ false
    → IsPlain (canonical_mailbox_name name)
    → IsPlain folder
    → canonical_mailbox_name name ≢ folder
    → get_mailbox u.id folder s.db ≡ some row
    → row.id ≢ mbox.mailbox.db_id
    → All (OnlyRow u.id (canonical_mailbox_name name) mbox.mailbox.db_id) s.db.mailboxes
    → let (s1, answer) = delete names f now base u name s in
      (answer ≡ done tt)
      × (lookup mbox.root s1.disk ≡ none)
      × (lookup (folder_root names f now base u folder) s1.disk
          ≡ lookup (folder_root names f now base u folder) s.disk)
      × (get_mailbox u.id folder s1.db ≡ some row)
      × ((mailbox_locked names f now base u (canonical_mailbox_name name) s1).1
          ≡ failed no_such_mailbox)
delete-others names f now base u name folder s mbox row there root works plain plain1 apart e other
      only =
    let canonical = canonical_mailbox_name name in
    let left = lookup-remove_all mbox.root in
    let gone = get_mailbox-gone u.id canonical mbox.mailbox.db_id s.db only in
    let removed = lookup-remove canonical canonical s.mailboxes in
    let sibling =
      under-sibling (root_of base u) (b'.' ∷ canonical) (b'.' ∷ folder) (λ q. apart (cc q)) in
    let mine = folder_root-IsPlain names f now base u canonical plain in
    let others = folder_root-IsPlain names f now base u folder plain1 in
    rw (delete-State names f now base u name s mbox there works) (
      refl,
      left mbox.root s.disk ∙ rw (under_self mbox.root) refl,
      left (folder_root names f now base u folder) s.disk ∙ rw (root, mine, others, sibling) refl,
      get_mailbox-delete u.id mbox.mailbox.db_id folder s.db row e other,
      mailbox_locked-missing names f now base u canonical _
          (removed ∙ rw (same_refl canonical) refl) gone,
    )
