-- ===== src/Imap/Mailbox.antt =====
-- internal/imapbackend/mailbox.go: a folder in memory, over its Maildir and its rows in the database.
-- One call at a time, as its mutex makes it. The updates that are queued for other sessions go to a
-- tracker of the IMAP library and are left out, and so are the writers of responses.
pub mod Indexing
pub mod Reload
pub mod Expunge
use mailroom.Prelude.{
  Bool, List, Option, Text, [], collect, find_first, if◌then◌else◌, is_nil, keep, lookup, ltb, map,
  nat_eq, none, not, reverse, some, sort_by, suc, text_eq, ℕ, ◌%◌, ◌&&◌, ◌++◌, ◌+◌, ◌==◌, ◌^◌, ◌||◌,
  ◌∷◌,
}
use mailroom.Maildir.{
  Message as FileMessage, Faults, Maildir, err, list, not_exist, ok, remove_message, set_flags,
  stat,
}
use mailroom.Store.{ok as assigned, err as refusal, Db, MailboxMessage}
use mailroom.Store.Messages.{
  delete_message_by_key, delete_messages_not_in, insert_message, list_messages,
  update_message_flags,
}
use mailroom.Imap.{Answer, Message, done, failed, maildir_failure, store_failure}
use mailroom.Imap.Flags.{
  FlagNames, decode_flags, encode_flags, flag_set_from_maildir_letters, has_flag,
  maildir_letters_from_flag_list,
}

pub record Mailbox : Type 0 where
  pub db_id : ℕ
  pub name : Text
  pub uid_validity : ℕ
  pub subscribed : Bool
  pub messages : List Message

-- The size and time of a new file; a file that cannot be read counts as empty and as of now.
unfoldable pub file_info : Faults → ℕ → Text → Maildir → ℕ × ℕ
unfolding stat
file_info f now key md = elim (stat f key md) [ ok info ↦ info | err _ ↦ (0, now) ]

module _ (names : FlagNames) (f : Faults) (now : ℕ) (mb : ℕ) (md : Maildir) where
  -- A file that is not indexed yet.
  unfoldable pub index_new : FileMessage → Db → Db × Answer Message
  unfolding file_info flag_set_from_maildir_letters insert_message
  index_new dm db =
      let (size, date) = file_info f now dm.key md in
      let (db1, answer) = insert_message mb dm.key dm.flags date size db in
      elim answer [
        | refusal e ↦ (db1, failed (store_failure e))
        | assigned uid ↦ (
          db1,
          done (record {
            uid = uid;
            key = dm.key;
            date = date;
            size = size;
            flags = flag_set_from_maildir_letters names dm.flags;
          }),
        )
      ]

  unfoldable pub message_of_row : Text → MailboxMessage → Message
  unfolding decode_flags
  message_of_row key row = record {
    uid = row.uid;
    key = key;
    date = row.internal_date;
    size = row.size;
    flags = decode_flags row.flags;
  }

  unfoldable pub cons_answer : Message → Db × Answer (List Message) → Db × Answer (List Message)
  cons_answer m (db, done ms) = (db, done (m ∷ ms))
  cons_answer m (db, failed e) = (db, failed e)

  unfoldable pub after_new :
      Db × Answer Message → (Db → Db × Answer (List Message)) → Db × Answer (List Message)
  unfolding cons_answer
  after_new (db, failed e) next = (db, failed e)
  after_new (db, done m) next = cons_answer m (next db)

  -- The loop of reloadLocked over the files; `existing` and `rows` are the two maps by key.
  unfoldable pub index_all :
      List (Text × Message)
      → List (Text × MailboxMessage)
      → List FileMessage
      → Db
      → Db × Answer (List Message)
  unfolding message_of_row cons_answer after_new lookup
  index_all existing rows [] db = (db, done [])
  index_all existing rows (dm ∷ dms) db =
      let rest = λ (d : Db). index_all existing rows dms d in
      elim (lookup dm.key existing) [
        | some m ↦ cons_answer m (rest db)
        | none ↦ elim (lookup dm.key rows) [
          | some row ↦ cons_answer (message_of_row dm.key row) (rest db)
          | none ↦ after_new (index_new dm db) rest
        ]
      ]

abbrev pub by_uid : Message → Message → Bool
by_uid m n = ltb m.uid n.uid

abbrev pub key_of_row : MailboxMessage → Text
key_of_row r = r.maildir_key

abbrev pub key_of_message : Message → Text
key_of_message m = m.key

abbrev pub key_of_file : FileMessage → Text
key_of_file dm = dm.key

pub finish_reload : Mailbox → Db × Answer (List Message) → Db × Mailbox × Answer (Unit {0})
unfolding sort_by
finish_reload mbox (db, failed e) = (db, mbox, failed e)
finish_reload mbox (db, done l) = (db, record mbox { messages = sort_by by_uid l }, done tt)

-- reloadLocked
unfoldable pub reload :
    FlagNames → Faults → ℕ → Maildir → Db → Mailbox → Db × Mailbox × Answer (Unit {0})
unfolding list list_messages delete_messages_not_in index_all collect finish_reload
reload names f now md db mbox = elim (list f md) [
  | err e ↦ (db, mbox, failed (maildir_failure e))
  | ok disk ↦ finish_reload mbox (
      index_all names f now mbox.db_id md (collect key_of_message mbox.messages [])
        (collect key_of_row (list_messages mbox.db_id db) []) disk
        (delete_messages_not_in mbox.db_id (map key_of_file disk) db))
]

-- persistFlagsLocked, of a message whose flags have changed.
unfoldable pub persist_flags :
    FlagNames → Faults → ℕ → Message → Maildir → Db → Maildir × Db × Answer (Unit {0})
unfolding update_message_flags encode_flags set_flags maildir_letters_from_flag_list
persist_flags names f mb m md db =
    let db1 = update_message_flags mb m.key (encode_flags m.flags) db in
    let (md1, answer) = set_flags f m.key (maildir_letters_from_flag_list names m.flags) md in
    elim answer [ err e ↦ (md1, db1, failed (maildir_failure e)) | ok _ ↦ (md1, db1, done tt) ]

-- countByFlagLocked
unfoldable pub count_by_flag : Text → List Message → ℕ
unfolding has_flag
count_by_flag flag [] = 0
count_by_flag flag (m ∷ ms) =
    let rest = count_by_flag flag ms in if has_flag flag m.flags then suc rest else rest

-- findByUIDLocked
unfoldable pub find_by_uid : ℕ → List Message → Option Message
unfolding find_first
find_by_uid uid ms = find_first (λ m. m.uid == uid) ms

-- uidNextLocked; UIDs are 32-bit numbers.
unfoldable pub max_uid : List Message → ℕ → ℕ
max_uid [] highest = highest
max_uid (m ∷ ms) highest = max_uid ms (if ltb highest m.uid then m.uid else highest)

unfoldable pub uid_next : List Message → ℕ
unfolding max_uid
uid_next ms = (max_uid ms 0 + 1) % 2 ^ 32

-- firstUnseenSeqNumLocked
unfoldable pub first_unseen : Text → ℕ → List Message → ℕ
unfolding has_flag
first_unseen seen i [] = 0
first_unseen seen i (m ∷ ms) =
    let rest = first_unseen seen (i + 1) ms in if has_flag seen m.flags then rest else i + 1

unfoldable pub total_size : List Message → ℕ
total_size [] = 0
total_size (m ∷ ms) = m.size + total_size ms

-- The members of an expunge: those with \Deleted, among the UIDs given, if any are.
unfoldable pub to_expunge : Text → Option (ℕ → Bool) → Message → Bool
unfolding has_flag
to_expunge deleted none m = has_flag deleted m.flags
to_expunge deleted (some uids) m = uids m.uid && has_flag deleted m.flags

-- expungeLocked: from the last message to the first, the sequence numbers of those that go, and those
-- that stay, which are then turned around. `i` messages stand before the list.
unfoldable pub expunge_from : (Message → Bool) → ℕ → List Message → List ℕ × List Message
expunge_from gone i [] = ([], [])
expunge_from gone i (m ∷ ms) =
    let (nums, filtered) = expunge_from gone (i + 1) ms in
    if gone m then (nums ++ (i + 1) ∷ [], filtered) else (nums, filtered ++ m ∷ [])

unfoldable pub expunge_locked : (Message → Bool) → List Message → List ℕ × List Message
unfolding expunge_from
expunge_locked gone ms = let (nums, filtered) = expunge_from gone 0 ms in (nums, reverse filtered)

-- The loop of Expunge over the messages that go, in the order in which a map gives them; a file that
-- is gone already is no error.
unfoldable pub remove_all :
    Faults → ℕ → List Message → Maildir → Db → Maildir × Db × Answer (Unit {0})
unfolding remove_message delete_message_by_key
remove_all f mb [] md db = (md, db, done tt)
remove_all f mb (m ∷ ms) md db =
    let (md1, answer) = remove_message f m.key md in
    let rest = remove_all f mb ms md1 (delete_message_by_key mb m.key db) in
    elim answer [
      | ok _ ↦ rest
      | err not_exist ↦ rest
      | err e ↦ (md1, db, failed (maildir_failure e))
    ]

pub record State : Type 0 where
  pub maildir : Maildir
  pub db : Db
  pub mailbox : Mailbox

-- Expunge; `order` is the order of the map, and `encode` the tracker's number for a session once the
-- expunges of some numbers are queued, 0 where the client is not told.
unfoldable pub expunge :
    FlagNames
    → Faults
    → (List ℕ → ℕ → ℕ)
    → (List Message → List Message)
    → Option (ℕ → Bool)
    → State
    → State × Answer (List ℕ)
unfolding to_expunge keep remove_all expunge_locked
expunge names f encode order uids s =
    let gone = to_expunge names.deleted uids in
    let doomed = keep gone s.mailbox.messages in
    let (md, db, answer) = remove_all f s.mailbox.db_id (order doomed) s.maildir s.db in
    let (nums, kept) = expunge_locked gone s.mailbox.messages in
    if is_nil doomed then (s, done []) else elim answer [
      | failed e ↦ (record s { maildir = md; db = db }, failed e)
      | done _ ↦ (
        record { maildir = md; db = db; mailbox = record s.mailbox { messages = kept } },
        done (keep (λ n. not (n == 0)) (map (encode nums) nums)),
      )
    ]

-- staticNumRange
unfoldable pub static_num_range : ℕ → ℕ × ℕ → ℕ × ℕ
static_num_range max (start, stop) =
    let start1 = if start == 0 then max else start in
    let stop1 = if stop == 0 then max else stop in
    if (start == 0 || stop == 0) && ltb stop1 start1 then (stop1, start1) else (start1, stop1)
