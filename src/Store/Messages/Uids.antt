-- ===== src/Store/Messages/Uids.antt =====
-- internal/store/mailbox.go: the UIDs that `InsertMessage` assigns.
use mathlib.Core.Option
use mailroom.Prelude.{
  Bool-cases, List, Option, Text, [], any, ap, arith, change, find_first, inl, inr, length, nat_eq,
  none, refl, some, suc, text_eq, ℕ, ◌%◌, ◌+◌, ◌<◌, ◌==◌, ◌^◌, ◌∙◌, ◌∷◌, ◌≡◌, ◌≤◌, ◌⊎◌,
}
use mailroom.Store.{Db, Mailbox, MailboxMessage, Result, constraint, err, ok}
use mailroom.Store.Messages.{
  clashes, delete_message_by_key, delete_messages_not_in, insert_message, uid_next_of,
  update_message_flags,
}

-- The statements that change the rows of a mailbox.
pub data Op : Type 0 where
  insert_row : Text → Text → ℕ → ℕ → Op
  update_row : Text → Text → Op
  delete_row : Text → Op
  delete_not_in : List Text → Op

unfoldable pub apply : ℕ → Op → Db → Db
apply mb (insert_row key flags date size) db = (insert_message mb key flags date size db).0
apply mb (update_row key flags) db = update_message_flags mb key flags db
apply mb (delete_row key) db = delete_message_by_key mb key db
apply mb (delete_not_in keys) db = delete_messages_not_in mb keys db

uid_of : Result ℕ → List ℕ → List ℕ
uid_of (ok uid) rest = uid ∷ rest
uid_of (err e) rest = rest

-- The UIDs that a sequence of statements assigns, in order.
unfoldable pub assigned : ℕ → List Op → Db → List ℕ
unfolding apply uid_of
assigned mb [] db = []
assigned mb (insert_row key flags date size ∷ ops) db =
    uid_of (insert_message mb key flags date size db).1
      (assigned mb ops (insert_message mb key flags date size db).0)
assigned mb (update_row key flags ∷ ops) db = assigned mb ops (update_message_flags mb key flags db)
assigned mb (delete_row key ∷ ops) db = assigned mb ops (delete_message_by_key mb key db)
assigned mb (delete_not_in keys ∷ ops) db = assigned mb ops (delete_messages_not_in mb keys db)

find-change :
    (mb uid : ℕ) (ms : List Mailbox)
    → Option.map
        (λ (m : Mailbox). m.uid_next)
        (find_first
          (λ m. m.id == mb)
          (change (λ m. m.id == mb) (λ m. record m { uid_next = uid }) ms))
      ≡ Option.map (λ (m : Mailbox). uid) (find_first (λ m. m.id == mb) ms)
unfolding find_first change
find-change mb uid [] = refl
find-change mb uid (m ∷ ms) = ground (arith, find-change mb uid ms)

pub uid_next-change :
    (mb n next : ℕ) (db : Db) (rows : List MailboxMessage) (count : ℕ)
    → uid_next_of mb db ≡ some n
    → uid_next_of mb (record db {
      mailboxes = change (λ m. m.id == mb) (λ m. record m { uid_next = next }) db.mailboxes;
      messages = rows;
      next_message = count;
    })
      ≡ some next
unfolding uid_next_of
uid_next-change mb n next db rows count h =
    find-change mb next db.mailboxes ∙ known (find_first (λ m. m.id == mb) db.mailboxes) h
  where
    known :
        (o : Option Mailbox)
        → Option.map (λ (m : Mailbox). m.uid_next) o ≡ some n
        → Option.map (λ (m : Mailbox). next) o ≡ some next
    known none e = cc
    known (some m) e = refl

-- What an insert does to the next UID: one more where it succeeds, nothing where it fails.
pub uid_next-insert_message :
    (mb n : ℕ) (key flags : Text) (date size : ℕ) (db : Db)
    → uid_next_of mb db ≡ some n
    → suc n < 2 ^ 32
    → ((insert_message mb key flags date size db).1 ≡ ok n)
        × (uid_next_of mb (insert_message mb key flags date size db).0 ≡ some (suc n))
      ⊎ ((insert_message mb key flags date size db).1 ≡ err constraint)
        × ((insert_message mb key flags date size db).0 ≡ db)
unfolding insert_message
uid_next-insert_message mb n key flags date size db h room =
    rw (h, insert_message)
      (elim (Bool-cases (any (clashes mb n key) db.messages)) [
        | inl clash ↦ rw clash (inr (refl, refl))
        | inr free ↦
            rw free
              (inl (refl, uid_next-change mb n ((n + 1) % 2 ^ 32) db _ _ h ∙ ap some (omega arith)))
      ])

-- The numbers rise, from `n` on.
abbrev pub Rising : ℕ → List ℕ → Type 0
Rising n [] = Unit
Rising n (u ∷ us) = (n ≤ u) × Rising (suc u) us

-- UIDs are never given twice: whatever rows are added, updated and deleted, each UID that a mailbox
-- assigns is greater than all before it, and none is below the mailbox's next UID at the start. The
-- mailbox exists, and its next UID stays within 32 bits.
pub assigned-Rising :
    (mb n : ℕ) (ops : List Op) (db : Db)
    → uid_next_of mb db ≡ some n
    → n + length ops < 2 ^ 32
    → Rising n (assigned mb ops db)
unfolding assigned
assigned-Rising mb n [] db h room = tt
assigned-Rising mb n (insert_row key flags date size ∷ ops) db h room =
    elim (uid_next-insert_message mb n key flags date size db h (omega arith)) [
      | inl (fine, next) ↦
          rw fine (omega arith, assigned-Rising mb (suc n) ops _ next (omega arith))
      | inr (failed, same) ↦ rw (failed, same) (assigned-Rising mb n ops db h (omega arith))
    ]
assigned-Rising mb n (update_row key flags ∷ ops) db h room =
    assigned-Rising mb n ops (update_message_flags mb key flags db)
      (unfold update_message_flags uid_next_of in h) (omega arith)
assigned-Rising mb n (delete_row key ∷ ops) db h room =
    assigned-Rising mb n ops (delete_message_by_key mb key db)
      (unfold delete_message_by_key uid_next_of in h) (omega arith)
assigned-Rising mb n (delete_not_in [] ∷ ops) db h room =
    assigned-Rising mb n ops (delete_messages_not_in mb [] db)
      (unfold delete_messages_not_in uid_next_of in h) (omega arith)
assigned-Rising mb n (delete_not_in (k ∷ keys) ∷ ops) db h room =
    assigned-Rising mb n ops (delete_messages_not_in mb (k ∷ keys) db)
      (unfold delete_messages_not_in uid_next_of in h) (omega arith)
