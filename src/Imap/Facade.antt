-- ===== src/Imap/Facade.antt =====
-- internal/imapbackend/webapi.go: the calls of the web mail, over the folders of a user. A message is
-- summarized by the caller.
use mailroom.Prelude.{
  List, Text, [], codes, equal_fold, if◌then◌else◌, insert, keep, length, nat_eq, none, reverse,
  some, text_eq, ℕ, ◌-◌, ◌==◌, ◌∷◌,
}
use mailroom.Maildir.{Faults, err, ok, open_message}
use mailroom.Maildir.Paths.{FilePath}
use mailroom.Store.{Db, User, Mailbox as Row}
use mailroom.Store.Mailboxes.{list_mailboxes}
use mailroom.Imap.{Answer, Message, done, failed, maildir_failure, no_message}
use mailroom.Imap.Disk.{maildir_at}
use mailroom.Imap.Disk.Paths.{path_eq}
use mailroom.Imap.Flags.{FlagNames}
use mailroom.Imap.Folder.{Folder, append_bytes, expunge_one, move_to, set_message_flags, take_out}
use mailroom.Imap.Mailbox.{Mailbox, count_by_flag, find_by_uid, reload}
use mailroom.Imap.Search.{Criteria, Reading, criteria, no_nots, no_ors, search}
use mailroom.Imap.Session.{View}
use mailroom.Imap.User.{Shared, State, canonical_mailbox_name, in_folder, mailbox, with_mailbox}

pub record FolderInfo : Type 0 where
  pub name : Text
  pub total : ℕ
  pub unseen : ℕ

-- The criteria of Account.Search: one text.
abbrev pub text_criteria : Text → Criteria
text_criteria query =
    criteria
      (record {
        seq_num = [];
        uid = [];
        since = 0;
        before = 0;
        flag = [];
        not_flag = [];
        larger = 0;
        smaller = 0;
        header = [];
        sent_since = 0;
        sent_before = 0;
        text = query ∷ [];
        body = [];
      })
      no_nots no_ors

abbrev cons_info : FolderInfo → State × Answer (List FolderInfo) → State × Answer (List FolderInfo)
cons_info i (s, done infos) = (s, done (i ∷ infos))
cons_info i (s, failed e) = (s, failed e)

module _ (names : FlagNames) (f : Faults) (now : ℕ) (base : FilePath) (u : User) where
  -- reloadLocked of a mailbox that is open, with its outcome in the map
  unfoldable pub refresh : Text → Shared → State → State × Answer Mailbox
  unfolding reload maildir_at insert
  refresh name mbox s =
      let (db1, mailbox1, answer) =
        reload names f now (maildir_at mbox.root s.disk) s.db mbox.mailbox in
      let s1 : State = record s {
        db = db1;
        mailboxes =
            insert (canonical_mailbox_name name) (record mbox { mailbox = mailbox1 }) s.mailboxes;
      } in
      elim answer [ failed e ↦ (s1, failed e) | done _ ↦ (s1, done mailbox1) ]

  -- A mailbox is opened and read anew.
  unfoldable pub refreshed : Text → State → State × Answer Mailbox
  unfolding mailbox with_mailbox refresh
  refreshed name s =
      with_mailbox names f now base u (refresh name) (mailbox names f now base u name s)

  -- The loop of Folders over the rows
  unfoldable pub folders_from : List Row → State → State × Answer (List FolderInfo)
  unfolding refreshed count_by_flag
  folders_from [] s = (s, done [])
  folders_from (row ∷ rows) s =
      let (s1, answer) = refreshed row.name s in
      let rest = folders_from rows s1 in
      elim answer [
        | failed e ↦ (s1, failed e)
        | done m ↦
            let total = length m.messages in
            cons_info
              (record {
                name = row.name;
                total = total;
                unseen = total - count_by_flag names.seen m.messages;
              })
              rest
      ]

  -- Folders
  unfoldable pub folders : State → State × Answer (List FolderInfo)
  unfolding list_mailboxes folders_from
  folders s = folders_from (list_mailboxes u.id s.db) s

  -- Search, the newest first
  unfoldable pub search_text :
      View → (ℕ → ℕ) → (Message → Reading) → Text → Text → State → State × Answer (List Message)
  unfolding refreshed search keep
  search_text v day read folder query s =
      let (s1, answer) = refreshed folder s in
      elim answer [
        | failed e ↦ (s1, failed e)
        | done m ↦ (
          s1,
          done (
              keep (λ msg. search v day 0 msg (read msg) (text_criteria query))
                (reverse m.messages)),
        )
      ]

  -- Append of webapi.go
  unfoldable pub append_raw : Text → Text → Text → List Text → State → State × Answer ℕ
  unfolding mailbox with_mailbox in_folder append_bytes canonical_mailbox_name
  append_raw unique folder raw flags s =
      with_mailbox names f now base u
        (in_folder names f now base u (canonical_mailbox_name folder)
          (append_bytes names f now unique raw none flags))
        (mailbox names f now base u folder s)

  -- SetFlags, with the opening of its folder
  unfoldable pub set_flags : Text → ℕ → List Text → State → State × Answer (Unit {0})
  unfolding mailbox with_mailbox in_folder set_message_flags canonical_mailbox_name
  set_flags folder uid flags s =
      with_mailbox names f now base u
        (in_folder names f now base u (canonical_mailbox_name folder)
          (set_message_flags names f uid flags))
        (mailbox names f now base u folder s)

  -- GetSummary, of the message itself
  unfoldable pub get_summary : Text → ℕ → State → State × Answer Message
  unfolding mailbox with_mailbox find_by_uid
  get_summary folder uid s =
      with_mailbox names f now base u
        (λ mbox s1. elim (find_by_uid uid mbox.mailbox.messages) [
          | none ↦ (s1, failed no_message)
          | some msg ↦ (s1, done msg)
        ])
        (mailbox names f now base u folder s)

  -- moveTo from a folder to itself: the copy and the original stand in one list.
  unfoldable pub move_within : Text → ℕ → Folder × Db → (Folder × Db) × Answer (Unit {0})
  unfolding find_by_uid open_message append_bytes take_out
  move_within unique uid (fo, db) = elim (find_by_uid uid fo.mailbox.messages) [
    | none ↦ ((fo, db), failed no_message)
    | some msg ↦ elim (open_message f msg.key fo.maildir) [
      | err e ↦ ((fo, db), failed (maildir_failure e))
      | ok buf ↦
          let (s1, copied) =
            append_bytes names f now unique buf (some msg.date) msg.flags (fo, db) in
          elim copied [ failed e ↦ (s1, failed e) | done _ ↦ take_out f msg s1 ]
    ]
  ]

  abbrev folder_of : Shared → State → Folder
  folder_of mbox s = record { maildir = maildir_at mbox.root s.disk; mailbox = mbox.mailbox }

  -- moveTo, with both mailboxes at hand
  unfoldable pub move_between :
      Text → Text → ℕ → Text → Shared → Shared → State → State × Answer (Unit {0})
  unfolding canonical_mailbox_name in_folder move_within move_to maildir_at insert
  move_between unique folder uid dest_folder src dest s =
      let from = canonical_mailbox_name folder in
      let to = canonical_mailbox_name dest_folder in
      if from == to
      then in_folder names f now base u from (move_within unique uid) src s
      else let ((src1, dest1, db1), answer) =
          move_to names f now unique uid (folder_of src s, folder_of dest s, s.db) in
        (
          record {
            disk = insert dest.root dest1.maildir (insert src.root src1.maildir s.disk);
            db = db1;
            mailboxes =
                insert to (record dest { mailbox = dest1.mailbox })
                  (insert from (record src { mailbox = src1.mailbox }) s.mailboxes);
          },
          answer,
        )

  -- Move
  unfoldable pub move : Text → Text → ℕ → Text → State → State × Answer (Unit {0})
  unfolding mailbox with_mailbox move_between
  move unique folder uid dest_folder s =
      with_mailbox names f now base u
        (λ src s1.
          with_mailbox names f now base u
            (λ dest s2. move_between unique folder uid dest_folder src dest s2)
            (mailbox names f now base u dest_folder s1))
        (mailbox names f now base u folder s)

  -- Delete: to the trash, and from there for good
  unfoldable pub delete : Text → Text → ℕ → State → State × Answer (Unit {0})
  unfolding equal_fold mailbox with_mailbox in_folder expunge_one canonical_mailbox_name move
  delete unique folder uid s =
      if equal_fold folder (codes "Trash")
      then with_mailbox names f now base u
          (in_folder names f now base u (canonical_mailbox_name folder) (expunge_one f uid))
          (mailbox names f now base u folder s)
      else move unique folder uid (codes "Trash") s
