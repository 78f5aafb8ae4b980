-- ===== src/Store/Mailboxes.antt =====
-- internal/store/mailbox.go: mailboxes.
pub mod Naming
use mailroom.Prelude.{
  Bool, List, Option, Text, [], any, change, false, find_first, if◌then◌else◌, keep, nat_eq, none,
  not, some, sort_by, suc, text_eq, text_ltb, true, ℕ, ◌%◌, ◌&&◌, ◌++◌, ◌==◌, ◌^◌, ◌∷◌,
}
use mailroom.Store.{Db, Mailbox, Result, constraint, err, ok}

abbrev pub named : ℕ → Text → Mailbox → Bool
named user_id name m = m.user_id == user_id && m.name == name

unfoldable pub get_mailbox : ℕ → Text → Db → Option Mailbox
unfolding find_first
get_mailbox user_id name db = find_first (named user_id name) db.mailboxes

-- EnsureMailbox; `now` is the clock in seconds, of which UIDVALIDITY is the low 32 bits.
unfoldable pub ensure_mailbox : ℕ → ℕ → Text → Db → Db × Mailbox
ensure_mailbox now user_id name db = elim (get_mailbox user_id name db) [
  | some m ↦ (db, m)
  | none ↦
      let m : Mailbox = record {
        id = db.next_mailbox;
        user_id = user_id;
        name = name;
        uid_validity = now % 2 ^ 32;
        uid_next = 1;
        subscribed = true;
      } in
      (record db { mailboxes = db.mailboxes ++ m ∷ []; next_mailbox = suc db.next_mailbox }, m)
]

unfoldable pub list_mailboxes : ℕ → Db → List Mailbox
unfolding keep sort_by text_ltb
list_mailboxes user_id db =
    sort_by (λ m n. text_ltb m.name n.name) (keep (λ m. m.user_id == user_id) db.mailboxes)

-- DeleteMailbox; its messages' rows go with it.
unfoldable pub delete_mailbox : ℕ → Db → Db
unfolding keep
delete_mailbox id db = record db {
  mailboxes = keep (λ m. not (m.id == id)) db.mailboxes;
  messages = keep (λ r. not (r.mailbox_id == id)) db.messages;
}

-- A mailbox of the owner of the mailbox `id` that has the name already.
unfoldable pub taken : ℕ → Text → Db → Bool
unfolding find_first any
taken id name db = elim (find_first (λ m. m.id == id) db.mailboxes) [
  | none ↦ false
  | some m ↦ any (λ n. named m.user_id name n && not (n.id == id)) db.mailboxes
]

-- RenameMailbox; the owner and the name are UNIQUE together.
unfoldable pub rename_mailbox : ℕ → Text → Db → Db × Result (Unit {0})
unfolding taken change
rename_mailbox id name db = if taken id name db then (db, err constraint) else (
  record db { mailboxes = change (λ m. m.id == id) (λ m. record m { name = name }) db.mailboxes },
  ok tt,
)

unfoldable pub set_mailbox_subscribed : ℕ → Bool → Db → Db
unfolding change
set_mailbox_subscribed id subscribed db = record db {
  mailboxes = change (λ m. m.id == id) (λ m. record m { subscribed = subscribed }) db.mailboxes;
}
