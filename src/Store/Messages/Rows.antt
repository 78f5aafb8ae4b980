-- ===== src/Store/Messages/Rows.antt =====
-- internal/store/mailbox.go: the UID that a mailbox has for a key.
use mathlib.Core.Option
use mailroom.Prelude.{
  All, Bool-cases, List, Option, Option-cases, Text, [], any, arith, false, find_first,
  find_first-append, find_first-keep, inl, inr, keep, nat_eq, not, refl, same_refl, some,
  text_beq_iff, text_eq, true, ℕ, ◌++◌, ◌==◌, ◌||◌, ◌∙◌, ◌∷◌, ◌≡◌, ◌≢◌,
}
use mailroom.Store.{Db, MailboxMessage}
use mailroom.Store.Messages.{clashes, delete_messages_not_in, insert_message, keyed, uid_next_of}
use mailroom.Store.Messages.Index.{
  AllApart, Apart, IsIndexed, delete_messages_not_in_lem, no_uid_clash,
}

abbrev pub uid_in : ℕ → Text → List MailboxMessage → Option ℕ
uid_in mb key rows = Option.map (λ (r : MailboxMessage). r.uid) (find_first (keyed mb key) rows)

-- An insert keeps the UIDs there are.
pub uid_in-insert :
    (mb : ℕ) (key other flags : Text) (date size u : ℕ) (db : Db)
    → uid_in mb other db.messages ≡ some u
    → uid_in mb other (insert_message mb key flags date size db).0.messages ≡ some u
unfolding insert_message find_first
uid_in-insert mb key other flags date size u db h = elim (Option-cases (uid_next_of mb db)) [
  | inl gone ↦ rw (insert_message, gone) h
  | inr (n, here) ↦ elim (Bool-cases (any (clashes mb n key) db.messages)) [
    | inl clash ↦ rw (insert_message, here, clash) h
    | inr free ↦ rw (insert_message, here, free) (kept db.messages _ h)
  ]
]
  where
    kept :
        (rows : List MailboxMessage) (r : MailboxMessage)
        → uid_in mb other rows ≡ some u
        → uid_in mb other (rows ++ r ∷ []) ≡ some u
    kept [] r h = cc
    kept (x ∷ rows) r h = ground (arith, h, kept rows r)

-- A new key gets the mailbox's next UID.
pub uid_in-insert_new :
    (mb n : ℕ) (key flags : Text) (date size : ℕ) (db : Db)
    → uid_next_of mb db ≡ some n
    → IsIndexed mb n db.messages
    → any (keyed mb key) db.messages ≡ false
    → uid_in mb key (insert_message mb key flags date size db).0.messages ≡ some n
unfolding insert_message
uid_in-insert_new mb n key flags date size db h v new =
    let free = no_uid_clash mb n key db.messages v.below ∙ new in
    rw (insert_message, h, free, find_first-append (keyed mb key) db.messages _ new)
      (rw (same_refl mb, same_refl key) refl)

-- Other keys are not made new or old by an insert.
pub any-keyed-insert :
    (mb : ℕ) (key other flags : Text) (date size : ℕ) (db : Db)
    → key ≢ other
    → any (keyed mb other) db.messages ≡ false
    → any (keyed mb other) (insert_message mb key flags date size db).0.messages ≡ false
unfolding insert_message
any-keyed-insert mb key other flags date size db ne h = elim (Option-cases (uid_next_of mb db)) [
  | inl gone ↦ rw (insert_message, gone) h
  | inr (n, here) ↦ elim (Bool-cases (any (clashes mb n key) db.messages)) [
    | inl clash ↦ rw (insert_message, here, clash) h
    | inr free ↦ rw (insert_message, here, free) (fresh db.messages _ refl h)
  ]
]
  where
    fresh :
        (rows : List MailboxMessage) (r : MailboxMessage)
        → r.maildir_key ≡ key
        → any (keyed mb other) rows ≡ false
        → any (keyed mb other) (rows ++ r ∷ []) ≡ false
    fresh [] r k h = ground (arith, k, ne, text_beq_iff r.maildir_key other)
    fresh (x ∷ rows) r k h = ground (arith, h, fresh rows r k)

-- The listed keys keep their UIDs when the others are deleted.
pub uid_in-delete :
    (mb : ℕ) (key : Text) (keys : List Text) (db : Db)
    → any (λ k. k == key) keys ≡ true
    → uid_in mb key (delete_messages_not_in mb keys db).messages ≡ uid_in mb key db.messages
uid_in-delete mb key keys db listed =
    rw
      (
        delete_messages_not_in_lem mb keys db,
        find_first-keep (keyed mb key)
            (λ r. not (r.mailbox_id == mb) || any (λ k. k == r.maildir_key) keys) db.messages
            (λ r h.
              let e : r.maildir_key ≡ key = ground (arith, h, text_beq_iff r.maildir_key key) in
              rw (e, listed) (ground arith)),
      )
      refl

pub any-keyed-delete :
    (mb : ℕ) (key : Text) (keys : List Text) (db : Db)
    → any (keyed mb key) db.messages ≡ false
    → any (keyed mb key) (delete_messages_not_in mb keys db).messages ≡ false
unfolding any keep
any-keyed-delete mb key keys db h = rw (delete_messages_not_in_lem mb keys db) (go db.messages h)
  where
    go :
        (rows : List MailboxMessage)
        → any (keyed mb key) rows ≡ false
        → any
            (keyed mb key)
            (keep (λ r. not (r.mailbox_id == mb) || any (λ k. k == r.maildir_key) keys) rows)
          ≡ false
    go [] h = refl
    go (r ∷ rows) h = ground (arith, h, go rows)

-- In a well indexed table each row of the mailbox is the one that its key finds.
pub AllApart-uid_in :
    (mb : ℕ) (rows : List MailboxMessage)
    → AllApart mb rows
    → All (λ r. r.mailbox_id ≡ mb → uid_in mb r.maildir_key rows ≡ some r.uid) rows
unfolding find_first
AllApart-uid_in mb [] h = tt
AllApart-uid_in mb (r ∷ rows) (apart, h) =
    ((λ e. ground (arith, e, same_refl r.maildir_key)), go rows apart (AllApart-uid_in mb rows h))
  where
    go :
        (rs : List MailboxMessage)
        → All (Apart mb r) rs
        → All (λ x. x.mailbox_id ≡ mb → uid_in mb x.maildir_key rows ≡ some x.uid) rs
        → All (λ x. x.mailbox_id ≡ mb → uid_in mb x.maildir_key (r ∷ rows) ≡ some x.uid) rs
    go [] a b = tt
    go (x ∷ rs) a b = (
      (λ e. ground (arith, e, a.0, b.0 e, text_beq_iff r.maildir_key x.maildir_key)),
      go rs a.1 b.1,
    )
