-- ===== src/Store/Messages.antt =====
-- internal/store/mailbox.go: the rows that give each Maildir file its UID.
pub mod Uids
pub mod Index
pub mod Rows
use mathlib.Core.Option
use mailroom.Prelude.{
  Bool, List, Option, Text, [], any, change, find_first, if◌then◌else◌, keep, ltb, map, nat_eq,
  none, not, some, sort_by, suc, text_eq, ℕ, ◌%◌, ◌&&◌, ◌++◌, ◌+◌, ◌==◌, ◌^◌, ◌||◌, ◌∷◌,
}
use mailroom.Store.{Db, Mailbox, MailboxMessage, Result, constraint, err, not_found, ok}

unfoldable pub list_messages : ℕ → Db → List MailboxMessage
unfolding keep sort_by
list_messages mailbox_id db =
    sort_by (λ r s. ltb r.uid s.uid) (keep (λ r. r.mailbox_id == mailbox_id) db.messages)

unfoldable pub uid_next_of : ℕ → Db → Option ℕ
unfolding find_first
uid_next_of mailbox_id db =
    Option.map (λ (m : Mailbox). m.uid_next) (find_first (λ m. m.id == mailbox_id) db.mailboxes)

-- The constraints: in a mailbox the UID is UNIQUE, and so is the key.
unfoldable pub clashes : ℕ → ℕ → Text → MailboxMessage → Bool
clashes mailbox_id uid key r = r.mailbox_id == mailbox_id && (r.uid == uid || r.maildir_key == key)

-- InsertMessage, one transaction: where the insert fails nothing is changed. The next UID is a
-- 32-bit number.
unfoldable pub insert_message : ℕ → Text → Text → ℕ → ℕ → Db → Db × Result ℕ
unfolding clashes any change
insert_message mailbox_id key flags internal_date size db = elim (uid_next_of mailbox_id db) [
  | none ↦ (db, err not_found)
  | some uid ↦
      let row : MailboxMessage = record {
        id = db.next_message;
        mailbox_id = mailbox_id;
        uid = uid;
        maildir_key = key;
        flags = flags;
        internal_date = internal_date;
        size = size;
      } in
      if any (clashes mailbox_id uid key) db.messages then (db, err constraint) else (
        record db {
          mailboxes =
              change (λ m. m.id == mailbox_id) (λ m. record m { uid_next = (uid + 1) % 2 ^ 32 })
                db.mailboxes;
          messages = db.messages ++ row ∷ [];
          next_message = suc db.next_message;
        },
        ok uid,
      )
]

abbrev pub keyed : ℕ → Text → MailboxMessage → Bool
keyed mailbox_id key r = r.mailbox_id == mailbox_id && r.maildir_key == key

unfoldable pub update_message_flags : ℕ → Text → Text → Db → Db
unfolding change
update_message_flags mailbox_id key flags db = record db {
  messages = change (keyed mailbox_id key) (λ r. record r { flags = flags }) db.messages;
}

unfoldable pub delete_message_by_key : ℕ → Text → Db → Db
unfolding keep
delete_message_by_key mailbox_id key db = record db {
  messages = keep (λ r. not (keyed mailbox_id key r)) db.messages;
}

-- DeleteMessagesNotIn has two statements, one for an empty list.
unfoldable pub delete_messages_not_in : ℕ → List Text → Db → Db
unfolding keep any
delete_messages_not_in mailbox_id [] db = record db {
  messages = keep (λ r. not (r.mailbox_id == mailbox_id)) db.messages;
}
delete_messages_not_in mailbox_id (k ∷ keys) db = record db {
  messages =
      keep
        (λ r.
          not (r.mailbox_id == mailbox_id && not (any (λ key. key == r.maildir_key) (k ∷ keys))))
        db.messages;
}
