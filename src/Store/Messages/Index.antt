-- ===== src/Store/Messages/Index.antt =====
-- internal/store/mailbox.go: what the rows of a mailbox satisfy.
use mailroom.Store.Messages.Uids.{uid_next-change}
use mailroom.Prelude.{
  All, All-append, All-keep, Bool, Bool-cases, List, Text, [], any, ap, arith, change, false,
  if◌then◌else◌, inl, inr, keep, nat_eq, not, refl, some, suc, text_beq_iff, text_eq, true, ℕ, ◌%◌,
  ◌&&◌, ◌++◌, ◌+◌, ◌<◌, ◌==◌, ◌^◌, ◌||◌, ◌∙◌, ◌∷◌, ◌≡◌, ◌≢◌, ◌≤◌, ◌⊎◌,
}
use mailroom.Store.{Db, MailboxMessage, constraint, err, ok}
use mailroom.Store.Messages.{
  clashes, delete_message_by_key, delete_messages_not_in, insert_message, keyed, uid_next_of,
  update_message_flags,
}

-- In the mailbox, no two rows have a UID or a key in common.
abbrev pub Apart : ℕ → MailboxMessage → MailboxMessage → Type 0
Apart mb r s =
    r.mailbox_id ≡ mb → s.mailbox_id ≡ mb → (s.uid ≢ r.uid) × (s.maildir_key ≢ r.maildir_key)

abbrev pub AllApart : ℕ → List MailboxMessage → Type 0
AllApart mb [] = Unit
AllApart mb (r ∷ rs) = All (Apart mb r) rs × AllApart mb rs

-- The rows of a mailbox have their own UIDs and keys, and UIDs below the next one.
pub record IsIndexed (mb n : ℕ) (rows : List MailboxMessage) : Type 0 where
  pub below : All (λ r. r.mailbox_id ≡ mb → r.uid < n) rows
  pub apart : AllApart mb rows

keep-AllApart :
    (mb : ℕ) (p : MailboxMessage → Bool) (rows : List MailboxMessage)
    → AllApart mb rows
    → AllApart mb (keep p rows)
unfolding keep
keep-AllApart mb p [] h = tt
keep-AllApart mb p (r ∷ rows) h =
    ground (arith, keep-AllApart mb p rows h.1, All-keep (Apart mb r) p rows h.0)

keep-IsIndexed :
    (mb n : ℕ) (p : MailboxMessage → Bool) (rows : List MailboxMessage)
    → IsIndexed mb n rows
    → IsIndexed mb n (keep p rows)
keep-IsIndexed mb n p rows v = record {
  below = All-keep (λ r. r.mailbox_id ≡ mb → r.uid < n) p rows v.below;
  apart = keep-AllApart mb p rows v.apart;
}

-- No row clashes: then a new one is apart from all.
fresh-All :
    (mb uid : ℕ) (key : Text) (new : MailboxMessage) (r : MailboxMessage)
    (rows : List MailboxMessage)
    → new.uid ≡ uid
    → new.maildir_key ≡ key
    → any (clashes mb uid key) (r ∷ rows) ≡ false
    → Apart mb r new
unfolding any clashes
fresh-All mb uid key new r rows u k h here there =
    (ground (arith, h, here), ground (arith, h, here, text_beq_iff r.maildir_key key))

append-AllApart :
    (mb uid : ℕ) (key : Text) (new : MailboxMessage) (rows : List MailboxMessage)
    → new.uid ≡ uid
    → new.maildir_key ≡ key
    → any (clashes mb uid key) rows ≡ false
    → AllApart mb rows
    → AllApart mb (rows ++ new ∷ [])
append-AllApart mb uid key new [] u k h a = (tt, tt)
append-AllApart mb uid key new (r ∷ rows) u k h a = (
  All-append (Apart mb r) rows (new ∷ []) a.0 (fresh-All mb uid key new r rows u k h, tt),
  append-AllApart mb uid key new rows u k (unfold any in ground (arith, h)) a.1,
)

change-AllApart :
    (mb : ℕ) (p : MailboxMessage → Bool) (flags : Text) (rows : List MailboxMessage)
    → AllApart mb rows
    → AllApart mb (change p (λ r. record r { flags = flags }) rows)
unfolding change
change-AllApart mb p flags [] a = tt
change-AllApart mb p flags (r ∷ rows) a = (
  changed-All (if p r then record r { flags = flags } else r) rows (ground arith) (ground arith)
      (ground arith) a.0,
  change-AllApart mb p flags rows a.1,
)
  where
    changed-All :
        (s : MailboxMessage) (ts : List MailboxMessage)
        → s.mailbox_id ≡ r.mailbox_id
        → s.uid ≡ r.uid
        → s.maildir_key ≡ r.maildir_key
        → All (Apart mb r) ts
        → All (Apart mb s) (change p (λ t. record t { flags = flags }) ts)
    changed-All s [] m u k h = tt
    changed-All s (t ∷ ts) m u k h =
        ((λ x y. ground (arith, m, u, k, x, y, h.0)), changed-All s ts m u k h.1)

change-below :
    (mb n : ℕ) (p : MailboxMessage → Bool) (flags : Text) (rows : List MailboxMessage)
    → All (λ r. r.mailbox_id ≡ mb → r.uid < n) rows
    → All (λ r. r.mailbox_id ≡ mb → r.uid < n) (change p (λ r. record r { flags = flags }) rows)
unfolding change
change-below mb n p flags [] h = tt
change-below mb n p flags (r ∷ rows) h =
    ((λ e. ground (arith, e, h.0)), change-below mb n p flags rows h.1)

below_mono :
    (mb n m : ℕ) (rows : List MailboxMessage)
    → n ≤ m
    → All (λ r. r.mailbox_id ≡ mb → r.uid < n) rows
    → All (λ r. r.mailbox_id ≡ mb → r.uid < m) rows
below_mono mb n m [] le h = tt
below_mono mb n m (r ∷ rows) le h =
    ((λ e. let small : r.uid < n = h.0 e in omega arith), below_mono mb n m rows le h.1)

pub no_uid_clash :
    (mb n : ℕ) (key : Text) (rows : List MailboxMessage)
    → All (λ r. r.mailbox_id ≡ mb → r.uid < n) rows
    → any (clashes mb n key) rows ≡ any (keyed mb key) rows
unfolding any clashes
no_uid_clash mb n key [] h = refl
no_uid_clash mb n key (r ∷ rows) h = ground (arith, no_uid_clash mb n key rows h.1, h.0)

insert-IsIndexed :
    (mb n : ℕ) (key flags : Text) (date size : ℕ) (db : Db)
    → uid_next_of mb db ≡ some n
    → IsIndexed mb n db.messages
    → any (keyed mb key) db.messages ≡ false
    → IsIndexed mb (suc n) (insert_message mb key flags date size db).0.messages
unfolding insert_message
insert-IsIndexed mb n key flags date size db h v new =
    let free = no_uid_clash mb n key db.messages v.below ∙ new in
    rw (h, insert_message)
      (rw free (record {
        below =
            All-append (λ r. r.mailbox_id ≡ mb → r.uid < suc n) db.messages _
              (below_mono mb n (suc n) db.messages (omega arith) v.below) ((λ e. omega arith), tt);
        apart = append-AllApart mb n key _ db.messages refl refl free v.apart;
      }))

insert_refused :
    (mb n : ℕ) (key flags : Text) (date size : ℕ) (db : Db)
    → uid_next_of mb db ≡ some n
    → any (clashes mb n key) db.messages ≡ true
    → ((insert_message mb key flags date size db).1 ≡ err constraint)
      × ((insert_message mb key flags date size db).0 ≡ db)
unfolding insert_message
insert_refused mb n key flags date size db h clash = rw (h, insert_message) (rw clash (refl, refl))

insert_accepted :
    (mb n : ℕ) (key flags : Text) (date size : ℕ) (db : Db)
    → uid_next_of mb db ≡ some n
    → suc n < 2 ^ 32
    → any (clashes mb n key) db.messages ≡ false
    → ((insert_message mb key flags date size db).1 ≡ ok n)
      × (uid_next_of mb (insert_message mb key flags date size db).0 ≡ some (suc n))
unfolding insert_message
insert_accepted mb n key flags date size db h room free =
    rw (h, insert_message)
      (rw free (refl, uid_next-change mb n ((n + 1) % 2 ^ 32) db _ _ h ∙ ap some (omega arith)))

-- An insert answers the mailbox's next UID, and the row that it adds keeps UIDs and keys distinct
-- and below the new next UID; it fails exactly where the mailbox has the key already, and then
-- changes nothing. The mailbox exists, its rows are well indexed, and its next UID is below
-- 2 ^ 32 - 1.
pub insert_message_lem :
    (mb n : ℕ) (key flags : Text) (date size : ℕ) (db : Db)
    → uid_next_of mb db ≡ some n
    → suc n < 2 ^ 32
    → IsIndexed mb n db.messages
    → ((any (keyed mb key) db.messages ≡ true)
        × ((insert_message mb key flags date size db).1 ≡ err constraint)
        × ((insert_message mb key flags date size db).0 ≡ db))
      ⊎ ((any (keyed mb key) db.messages ≡ false)
          × ((insert_message mb key flags date size db).1 ≡ ok n)
          × (uid_next_of mb (insert_message mb key flags date size db).0 ≡ some (suc n))
          × IsIndexed mb (suc n) (insert_message mb key flags date size db).0.messages)
insert_message_lem mb n key flags date size db h room v =
    let same = no_uid_clash mb n key db.messages v.below in
    elim (Bool-cases (any (keyed mb key) db.messages)) [
      | inl old ↦
          let refused = insert_refused mb n key flags date size db h (same ∙ old) in
          inl (old, refused.0, refused.1)
      | inr new ↦
          let accepted = insert_accepted mb n key flags date size db h room (same ∙ new) in
          inr (new, accepted.0, accepted.1, insert-IsIndexed mb n key flags date size db h v new)
    ]

-- The rows of a mailbox stay indexed under the other statements too, with the same next UID.
pub others-IsIndexed :
    (mb n : ℕ) (key flags : Text) (keys : List Text) (db : Db)
    → IsIndexed mb n db.messages
    → IsIndexed mb n (update_message_flags mb key flags db).messages
      × IsIndexed mb n (delete_message_by_key mb key db).messages
      × IsIndexed mb n (delete_messages_not_in mb keys db).messages
unfolding update_message_flags delete_message_by_key delete_messages_not_in
others-IsIndexed mb n key flags [] db v = (
  record {
    below = change-below mb n _ flags db.messages v.below;
    apart = change-AllApart mb _ flags db.messages v.apart;
  },
  keep-IsIndexed mb n _ db.messages v,
  keep-IsIndexed mb n _ db.messages v,
)
others-IsIndexed mb n key flags (k ∷ keys) db v = (
  record {
    below = change-below mb n _ flags db.messages v.below;
    apart = change-AllApart mb _ flags db.messages v.apart;
  },
  keep-IsIndexed mb n _ db.messages v,
  keep-IsIndexed mb n _ db.messages v,
)

-- `DeleteMessagesNotIn` keeps, in both of its statements, every row of another mailbox and the rows
-- of the mailbox whose key is listed, and no other.
pub delete_messages_not_in_lem :
    (mb : ℕ) (keys : List Text) (db : Db)
    → (delete_messages_not_in mb keys db).messages
      ≡ keep (λ r. not (r.mailbox_id == mb) || any (λ key. key == r.maildir_key) keys) db.messages
unfolding delete_messages_not_in
delete_messages_not_in_lem mb [] db = go db.messages
  where
    go :
        (rows : List MailboxMessage)
        → keep (λ r. not (r.mailbox_id == mb)) rows
          ≡ keep (λ r. not (r.mailbox_id == mb) || false) rows
    go [] = refl
    go (r ∷ rows) = ground (arith, go rows)
delete_messages_not_in_lem mb (k ∷ keys) db = go db.messages
  where
    go :
        (rows : List MailboxMessage)
        → keep
            (λ r. not (r.mailbox_id == mb && not (any (λ key. key == r.maildir_key) (k ∷ keys))))
            rows
          ≡ keep
              (λ r. not (r.mailbox_id == mb) || any (λ key. key == r.maildir_key) (k ∷ keys))
              rows
    go [] = refl
    go (r ∷ rows) = ground (arith, go rows)
