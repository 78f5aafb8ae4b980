-- ===== src/Imap/Folder.antt =====
-- internal/imapbackend: a folder with its Maildir: appendBytes and Store of mailbox.go, and the calls of
-- webapi.go that change messages. A message is found again by its UID, where the code holds a pointer.
pub mod Moving
pub mod Opening
mod Tests
use mailroom.Prelude.{
  List, Option, Text, [], change, if◌then◌else◌, length, map, nat_eq, none, some, text_eq, ℕ, Bool,
  ◌++◌, ◌==◌, ◌∷◌,
}
use mailroom.Maildir.{Faults, Maildir, deliver, err, ok, open_message, remove_message, set_flags}
use mailroom.Store.{ok as assigned, err as refusal, Db}
use mailroom.Store.Messages.{delete_message_by_key, insert_message, update_message_flags}
use mailroom.Imap.{
  Answer, Failure, Message, done, failed, maildir_failure, no_message, store_failure,
}
use mailroom.Imap.Flags.{
  FlagNames, FlagSet, StoreOp, add_flag, add_flags, canonical_flag, encode_flags, has_flag,
  maildir_letters_from_flag_list, store,
}
use mailroom.Imap.Mailbox.{Mailbox, expunge_locked, find_by_uid, persist_flags}

pub record Folder : Type 0 where
  pub maildir : Maildir
  pub mailbox : Mailbox

-- The rest of appendBytes after the message is indexed: the folder's list grows where it is done.
abbrev pub push : Message → Maildir → Folder → Folder
push m md s = record {
  maildir = md;
  mailbox = record s.mailbox { messages = s.mailbox.messages ++ m ∷ [] };
}

module _ (names : FlagNames) (f : Faults) (now : ℕ) (name : Text) where
  -- The flags of a new message are written to its row and to its file's name.
  unfoldable pub write_flags :
      List Text → Text → ℕ → Maildir → Db → Maildir × Db × Answer (Unit {0})
  unfolding update_message_flags encode_flags set_flags maildir_letters_from_flag_list
  write_flags [] key mb md db = (md, db, done tt)
  write_flags (g ∷ flags) key mb md db =
      let db1 = update_message_flags mb key (encode_flags (g ∷ flags)) db in
      let (md1, answer) = set_flags f key (maildir_letters_from_flag_list names (g ∷ flags)) md in
      elim answer [ err e ↦ (md1, db1, failed (maildir_failure e)) | ok _ ↦ (md1, db1, done tt) ]

  -- appendBytes; `date` is the time that the options give, if any, and `name` the file's unique name.
  unfoldable pub append_bytes : Text → Option ℕ → List Text → Folder × Db → (Folder × Db) × Answer ℕ
  unfolding deliver insert_message maildir_letters_from_flag_list write_flags add_flags
      canonical_flag
  append_bytes buf date flags (s, db) =
      let mb = s.mailbox.db_id in
      let t : ℕ = elim date [ none ↦ now | some d ↦ d ] in
      let (md1, delivered) = deliver f name now buf s.maildir in
      elim delivered [
        | err e ↦ ((record s { maildir = md1 }, db), failed (maildir_failure e))
        | ok key ↦
            let (db1, indexed) =
              insert_message mb key (maildir_letters_from_flag_list names flags) t (length buf)
                db in
            elim indexed [
              | refusal e ↦ ((record s { maildir = md1 }, db1), failed (store_failure e))
              | assigned uid ↦
                  let (md2, db2, written) = write_flags flags key mb md1 db1 in
                  elim written [
                    | failed e ↦ ((record s { maildir = md2 }, db2), failed e)
                    | done _ ↦ (
                      (
                        push
                            (record {
                              uid = uid;
                              key = key;
                              date = t;
                              size = length buf;
                              flags = add_flags (map canonical_flag flags) [];
                            })
                            md2 s,
                        db2,
                      ),
                      done uid,
                    )
                  ]
            ]
      ]

abbrev is_uid : ℕ → Message → Bool
is_uid uid m = m.uid == uid

-- The message's file and row go, and then the message itself.
unfoldable pub take_out : Faults → Message → Folder × Db → (Folder × Db) × Answer (Unit {0})
unfolding remove_message delete_message_by_key expunge_locked
take_out f msg (s, db) =
    let (md1, removed) = remove_message f msg.key s.maildir in
    elim removed [
      | err e ↦ ((record s { maildir = md1 }, db), failed (maildir_failure e))
      | ok _ ↦ (
        (
          record {
            maildir = md1;
            mailbox = record s.mailbox {
              messages = (expunge_locked (is_uid msg.uid) s.mailbox.messages).1;
            };
          },
          delete_message_by_key s.mailbox.db_id msg.key db,
        ),
        done tt,
      )
    ]

-- expunge of webapi.go
unfoldable pub expunge_one : Faults → ℕ → Folder × Db → (Folder × Db) × Answer (Unit {0})
unfolding find_by_uid take_out
expunge_one f uid (s, db) = elim (find_by_uid uid s.mailbox.messages) [
  | none ↦ ((s, db), failed no_message)
  | some msg ↦ take_out f msg (s, db)
]

-- What moveTo does once the message is copied.
unfoldable pub after_copy :
    Faults
    → Message
    → Folder
    → (Folder × Db) × Answer ℕ
    → (Folder × Folder × Db) × Answer (Unit {0})
unfolding take_out
after_copy f msg src ((dest, db), failed e) = ((src, dest, db), failed e)
after_copy f msg src ((dest, db), done _) =
    let ((src1, db1), answer) = take_out f msg (src, db) in ((src1, dest, db1), answer)

-- moveTo, between two different folders.
unfoldable pub move_to :
    FlagNames
    → Faults
    → ℕ
    → Text
    → ℕ
    → Folder × Folder × Db
    → (Folder × Folder × Db) × Answer (Unit {0})
unfolding find_by_uid open_message append_bytes after_copy
move_to names f now name uid (src, dest, db) = elim (find_by_uid uid src.mailbox.messages) [
  | none ↦ ((src, dest, db), failed no_message)
  | some msg ↦ elim (open_message f msg.key src.maildir) [
    | err e ↦ ((src, dest, db), failed (maildir_failure e))
    | ok buf ↦
        after_copy f msg src
          (append_bytes names f now name buf (some msg.date) msg.flags (dest, db))
  ]
]

abbrev with_flags : FlagSet → Message → Message
with_flags flags m = record m { flags = flags }

-- The flags of the message in memory, and then its row and its file.
unfoldable pub change_flags :
    FlagNames → Faults → Message → FlagSet → Folder × Db → (Folder × Db) × Answer (Unit {0})
unfolding change persist_flags
change_flags names f msg flags (s, db) =
    let messages = change (is_uid msg.uid) (with_flags flags) s.mailbox.messages in
    let (md, db1, answer) =
      persist_flags names f s.mailbox.db_id (with_flags flags msg) s.maildir db in
    ((record { maildir = md; mailbox = record s.mailbox { messages = messages } }, db1), answer)

-- SetFlags of webapi.go
unfoldable pub set_message_flags :
    FlagNames → Faults → ℕ → List Text → Folder × Db → (Folder × Db) × Answer (Unit {0})
unfolding find_by_uid change_flags add_flags canonical_flag
set_message_flags names f uid flags (s, db) = elim (find_by_uid uid s.mailbox.messages) [
  | none ↦ ((s, db), failed no_message)
  | some msg ↦ change_flags names f msg (add_flags (map canonical_flag flags) []) (s, db)
]

-- The part of GetMessage that marks the message: the flag is set as the library spells it.
unfoldable pub mark_seen :
    FlagNames → Faults → Message → Folder × Db → (Folder × Db) × Answer (Unit {0})
unfolding has_flag add_flag change_flags
mark_seen names f msg (s, db) =
    if has_flag names.seen msg.flags
    then ((s, db), done tt)
    else change_flags names f msg (add_flag names.seen msg.flags) (s, db)

abbrev with_text : Text → (Folder × Db) × Answer (Unit {0}) → (Folder × Db) × Answer Text
with_text buf (s, done _) = (s, done buf)
with_text buf (s, failed e) = (s, failed e)

-- GetMessage, up to the reading of its text, which belongs to the mail library.
unfoldable pub get_message : FlagNames → Faults → ℕ → Folder × Db → (Folder × Db) × Answer Text
unfolding find_by_uid open_message mark_seen
get_message names f uid (s, db) = elim (find_by_uid uid s.mailbox.messages) [
  | none ↦ ((s, db), failed no_message)
  | some msg ↦ elim (open_message f msg.key s.maildir) [
    | err e ↦ ((s, db), failed (maildir_failure e))
    | ok buf ↦ with_text buf (mark_seen names f msg (s, db))
  ]
]

-- MailboxView.Store, on the messages that the numbers name: it stops at the first failure.
unfoldable pub store_all :
    FlagNames → Faults → StoreOp → List Message → Folder × Db → (Folder × Db) × Answer (Unit {0})
unfolding store change_flags
store_all names f op [] (s, db) = ((s, db), done tt)
store_all names f op (m ∷ ms) (s, db) =
    let (s1, answer) = change_flags names f m (store op m.flags) (s, db) in
    let rest = store_all names f op ms s1 in
    elim answer [ failed e ↦ (s1, failed e) | done _ ↦ rest ]
