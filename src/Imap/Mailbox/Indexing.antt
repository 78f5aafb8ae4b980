-- ===== src/Imap/Mailbox/Indexing.antt =====
-- internal/imapbackend/mailbox.go: the loop of reloadLocked over the files.
use mailroom.Store.Messages.{insert_message, keyed, uid_next_of}
use mailroom.Prelude.{
  All, List, Option-cases, Text, [], any, arith, false, inl, inr, length, lookup, map, nat_eq, none,
  refl, some, suc, text_eq, ℕ, ◌+◌, ◌<◌, ◌^◌, ◌∷◌, ◌≡◌, ◌≢◌, ◌≤◌,
}
use mailroom.Maildir.{Message as FileMessage, Faults, Maildir}
use mailroom.Store.{Db, MailboxMessage}
use mailroom.Store.Messages.Index.{IsIndexed, insert_message_lem}
use mailroom.Store.Messages.Rows.{any-keyed-insert, uid_in, uid_in-insert, uid_in-insert_new}
use mailroom.Imap.{Answer, Message, done}
use mailroom.Imap.Flags.{FlagNames, flag_set_from_maildir_letters}
use mailroom.Imap.Mailbox.{
  after_new, cons_answer, file_info, index_all, index_new, key_of_file, key_of_message,
  message_of_row,
}

-- The row of the message's key has the message's UID.
abbrev pub Agrees : ℕ → Db → Message → Type 0
Agrees mb db m = uid_in mb m.key db.messages ≡ some m.uid

-- No UID is changed.
abbrev pub Stable : ℕ → Db → Db → Type 0
Stable mb db db1 =
    (k : Text) (u : ℕ) → uid_in mb k db.messages ≡ some u → uid_in mb k db1.messages ≡ some u

-- No two files have a key in common.
abbrev pub DistinctKeys : List FileMessage → Type 0
DistinctKeys [] = Unit
DistinctKeys (dm ∷ dms) = All (λ x. dm.key ≢ x.key) dms × DistinctKeys dms

module _ (mb : ℕ) (existing : List (Text × Message)) (rows : List (Text × MailboxMessage)) where
  -- What the two maps say of a key is so in the database.
  abbrev pub Ready : Db → Text → Type 0
  Ready db k =
      ((m : Message)
        → lookup k existing ≡ some m
        → (m.key ≡ k) × (uid_in mb k db.messages ≡ some m.uid))
      × ((r : MailboxMessage) → lookup k rows ≡ some r → uid_in mb k db.messages ≡ some r.uid)
      × (lookup k existing ≡ none → lookup k rows ≡ none → any (keyed mb k) db.messages ≡ false)

  insert-Ready :
      (key flags : Text) (date size : ℕ) (db : Db) (dms : List FileMessage)
      → All (λ x. key ≢ x.key) dms
      → All (λ x. Ready db x.key) dms
      → All (λ x. Ready (insert_message mb key flags date size db).0 x.key) dms
  insert-Ready key flags date size db [] ne h = tt
  insert-Ready key flags date size db (x ∷ dms) ne ((a, b, c), h) = (
    (
      (λ m e. ((a m e).0, uid_in-insert mb key x.key flags date size m.uid db (a m e).1)),
      (λ r e. uid_in-insert mb key x.key flags date size r.uid db (b r e)),
      (λ e g. any-keyed-insert mb key x.key flags date size db ne.0 (c e g)),
    ),
    insert-Ready key flags date size db dms ne.1 h,
  )

module _ (names : FlagNames) (f : Faults) (now : ℕ) (mb : ℕ) (md : Maildir)
    (existing : List (Text × Message)) (rows : List (Text × MailboxMessage)) where
  -- What the loop gives for the files `dms`.
  abbrev pub Indexed : List FileMessage → Db → ℕ → Db × Answer (List Message) → Type 0
  Indexed dms db n result =
      ((db1 : Db) × (l : List Message) × (n1 : ℕ) × (result ≡ (db1, done l))
        × All (Agrees mb db1) l
        × (map key_of_message l ≡ map key_of_file dms)
        × (uid_next_of mb db1 ≡ some n1)
        × IsIndexed mb n1 db1.messages
        × (n1 ≤ n + length dms)
        × Stable mb db db1)

  cons-Indexed :
      (dm : FileMessage) (dms : List FileMessage) (db db0 : Db) (n n0 : ℕ) (m : Message)
      (result : Db × Answer (List Message))
      → Stable mb db db0
      → n0 ≤ suc n
      → m.key ≡ dm.key
      → uid_in mb m.key db0.messages ≡ some m.uid
      → Indexed dms db0 n0 result
      → Indexed (dm ∷ dms) db n (cons_answer names f now mb md m result)
  unfolding cons_answer
  cons-Indexed dm dms db db0 n n0 m result before le same here
        (db1, l, n1, e, agree, keys, next, v, room, stable) =
      (
        db1,
        m ∷ l,
        n1,
        rw (e) refl,
        (stable m.key m.uid here, agree),
        rw (same, keys) refl,
        next,
        v,
        omega (arith, room, le),
        λ k u h. stable k u (before k u h),
      )

  -- A file without a row gets one, with the next UID.
  index_new_lem :
      (dm : FileMessage) (db : Db) (n : ℕ)
      → uid_next_of mb db ≡ some n
      → suc n < 2 ^ 32
      → IsIndexed mb n db.messages
      → any (keyed mb dm.key) db.messages ≡ false
      → let info = file_info f now dm.key md in
        let db0 = (insert_message mb dm.key dm.flags info.1 info.0 db).0 in
        ((m : Message) × (index_new names f now mb md dm db ≡ (db0, done m))
          × (m.key ≡ dm.key)
          × (uid_in mb m.key db0.messages ≡ some m.uid)
          × (uid_next_of mb db0 ≡ some (suc n))
          × IsIndexed mb (suc n) db0.messages)
  unfolding index_new
  index_new_lem dm db n next room v new =
      let info = file_info f now dm.key md in
      elim (insert_message_lem mb n dm.key dm.flags info.1 info.0 db next room v) [
        | inl (old, _, _) ↦ cc (old, new)
        | inr (_, answer, next1, v1) ↦ (
          record {
            uid = n;
            key = dm.key;
            date = info.1;
            size = info.0;
            flags = flag_set_from_maildir_letters names dm.flags;
          },
          rw (index_new, answer) refl,
          refl,
          uid_in-insert_new mb n dm.key dm.flags info.1 info.0 db next v new,
          next1,
          v1,
        )
      ]

  pub index_all_lem :
      (dms : List FileMessage) (db : Db) (n : ℕ)
      → uid_next_of mb db ≡ some n
      → IsIndexed mb n db.messages
      → n + length dms < 2 ^ 32
      → DistinctKeys dms
      → All (λ dm. Ready mb existing rows db dm.key) dms
      → Indexed dms db n (index_all names f now mb md existing rows dms db)
  unfolding index_all after_new cons_answer message_of_row
  index_all_lem [] db n next v room d h =
      (db, [], n, refl, tt, refl, next, v, omega arith, λ k u e. e)
  index_all_lem (dm ∷ dms) db n next v room d ((a, b, c), h) =
      elim (Option-cases (lookup dm.key existing)) [
        | inr (m, there) ↦
            let (same, uid) = a m there in
            rw (index_all, there)
              (cons-Indexed dm dms db db n n m _ (λ k u e. e) (omega arith) same (rw (same) uid)
                (index_all_lem dms db n next v (omega (arith, room)) d.1 h))
        | inl absent ↦ elim (Option-cases (lookup dm.key rows)) [
          | inr (row, there) ↦
              rw (index_all, absent, there)
                (cons-Indexed dm dms db db n n (message_of_row names f now mb md dm.key row) _
                  (λ k u e. e) (omega arith) refl (b row there)
                  (index_all_lem dms db n next v (omega (arith, room)) d.1 h))
          | inl fresh ↦
              let info = file_info f now dm.key md in
              let (m, e, same, uid, next1, v1) =
                index_new_lem dm db n next (omega (arith, room)) v (c absent fresh) in
              rw (index_all, absent, fresh, e)
                (cons-Indexed dm dms db (insert_message mb dm.key dm.flags info.1 info.0 db).0 n
                  (suc n) m _ (λ k u h. uid_in-insert mb dm.key k dm.flags info.1 info.0 u db h)
                  (omega arith) same uid
                  (index_all_lem dms (insert_message mb dm.key dm.flags info.1 info.0 db).0 (suc n)
                    next1 v1 (omega (arith, room)) d.1
                    (insert-Ready mb existing rows dm.key dm.flags info.1 info.0 db dms d.0 h)))
        ]
      ]
