-- ===== src/Store/Tests.antt =====
-- Runs of internal/store: two users of one domain, and a mailbox with one message.
use mailroom.Prelude.{
  List, [], arith, codes, false, find_first, if◌then◌else◌, nat_eq, refl, some, text_beq_iff,
  text_eq, true, ◌==◌, ◌∷◌, ◌≡◌,
}
use mailroom.Store.{Db, Mailbox, MailboxMessage, User, empty_db, err, not_found}
use mailroom.Store.Users.{Bcrypt, IsBcrypt, delete_user, get_user_by_id}
use mailroom.Store.Users.Cascade.{delete_user_lem, owns}
use mailroom.Store.Messages.{list_messages, uid_next_of}
use mailroom.Store.Messages.Uids.{Op, Rising, assigned, assigned-Rising, delete_row, insert_row}
use mailroom.Store.Mailboxes.{list_mailboxes}
use mailroom.Store.Settings.{get_forwarding}

-- A stand-in for bcrypt.
abbrev marked : Bcrypt
marked = record { hash = λ p. some (b'$' ∷ p); matches = λ h p. h == b'$' ∷ p }

marked-IsBcrypt : IsBcrypt marked
marked-IsBcrypt = record { hash_matches = λ p h e. ground (arith, e, text_beq_iff h (b'$' ∷ p)) }

abbrev alice : User
alice = record {
  id = 1;
  domain_id = 1;
  local_part = codes "alice";
  email = codes "alice@a.org";
  password_hash = codes "$pw";
  is_admin = false;
}

abbrev with_alice : Db
with_alice = record empty_db {
  users = alice ∷ [];
  next_user = 2;
  domains = record { id = 1; name = codes "a.org" } ∷ [];
  next_domain = 2;
}

abbrev inbox : Mailbox
inbox = record {
  id = 1;
  user_id = 1;
  name = codes "INBOX";
  uid_validity = 7;
  uid_next = 4;
  subscribed = true;
}

abbrev stored : MailboxMessage
stored = record {
  id = 1;
  mailbox_id = 1;
  uid = 3;
  maildir_key = codes "k3";
  flags = [];
  internal_date = 5;
  size = 9;
}

abbrev with_message : Db
with_message = record with_alice {
  mailboxes = inbox ∷ [];
  messages = stored ∷ [];
  next_mailbox = 2;
  next_message = 2;
}

delete_user_lem_example :
    (get_user_by_id (delete_user 1 with_message) 1 ≡ err not_found)
    × (list_mailboxes 1 (delete_user 1 with_message) ≡ [])
    × ((get_forwarding 1 (delete_user 1 with_message)).enabled ≡ false)
    × (get_user_by_id (delete_user 1 with_message) 2 ≡ get_user_by_id with_message 2)
    × (list_mailboxes 2 (delete_user 1 with_message) ≡ list_mailboxes 2 with_message)
    × (get_forwarding 2 (delete_user 1 with_message) ≡ get_forwarding 2 with_message)
    × (list_messages 1 (delete_user 1 with_message)
        ≡ (if owns 1 1 with_message then [] else list_messages 1 with_message))
delete_user_lem_example = delete_user_lem 1 2 1 with_message (λ e. omega arith)

abbrev ops : List Op
ops = insert_row (codes "k4") [] 6 1 ∷ delete_row (codes "k4") ∷ insert_row (codes "k5") [] 7 1 ∷ []

assigned-Rising_example : Rising 4 (assigned 1 ops with_message)
unfolding uid_next_of find_first
assigned-Rising_example = assigned-Rising 1 4 ops with_message refl (omega arith)
