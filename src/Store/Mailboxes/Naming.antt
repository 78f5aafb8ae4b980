-- ===== src/Store/Mailboxes/Naming.antt =====
-- internal/store/mailbox.go: a user's mailboxes by name.
use mailroom.Prelude.{
  Bool, Bool-cases, List, Option-cases, Text, [], any, arith, false, find_first, find_first-append,
  find_first-append_ne, if◌then◌else◌, inl, inr, nat_eq, none, refl, same_refl, some, suc,
  text_beq_iff, text_eq, true, ℕ, ◌%◌, ◌&&◌, ◌++◌, ◌==◌, ◌^◌, ◌∙◌, ◌∷◌, ◌≡◌,
}
use mailroom.Store.{Db, Mailbox}
use mailroom.Store.Mailboxes.{ensure_mailbox, get_mailbox, named}

absent-any : {A : Type 0} (p : A → Bool) (xs : List A) → find_first p xs ≡ none → any p xs ≡ false
unfolding find_first any
absent-any p [] h = refl
absent-any p (x ∷ xs) h = ground (arith, absent-any p xs)

get_mailbox-added :
    (m : Mailbox) (user_id other : ℕ) (name other_name : Text) (db : Db) (count : ℕ)
    → m.user_id ≡ user_id
    → m.name ≡ name
    → get_mailbox user_id name db ≡ none
    → get_mailbox other other_name
        (record db { mailboxes = db.mailboxes ++ m ∷ []; next_mailbox = count })
      ≡ (if user_id == other && name == other_name then some m else get_mailbox other other_name db)
unfolding get_mailbox
get_mailbox-added m user_id other name other_name db count u n h =
    elim (Bool-cases (named other other_name m)) [
      | inl same ↦
          let e : (user_id ≡ other) × (name ≡ other_name) =
            ground (arith, same, u, n, text_beq_iff m.name other_name) in
          let none_other : find_first (named other other_name) db.mailboxes ≡ none =
            ground (arith, e, h) in
          rw
            (find_first-append (named other other_name) db.mailboxes m
              (absent-any (named other other_name) db.mailboxes none_other))
            (ground (arith, same, e, text_beq_iff name other_name))
      | inr differs ↦
          rw (find_first-append_ne (named other other_name) db.mailboxes m differs)
            (ground (arith, differs, u, n, text_beq_iff name other_name))
    ]

-- The row that `EnsureMailbox` makes.
abbrev pub new_mailbox : ℕ → ℕ → Text → Db → Mailbox
new_mailbox now user_id name db = record {
  id = db.next_mailbox;
  user_id = user_id;
  name = name;
  uid_validity = now % 2 ^ 32;
  uid_next = 1;
  subscribed = true;
}

abbrev with_mailbox : ℕ → ℕ → Text → Db → Db
with_mailbox now user_id name db = record db {
  mailboxes = db.mailboxes ++ new_mailbox now user_id name db ∷ [];
  next_mailbox = suc db.next_mailbox;
}

ensure_known :
    (now user_id : ℕ) (name : Text) (db : Db) (m : Mailbox)
    → get_mailbox user_id name db ≡ some m
    → ensure_mailbox now user_id name db ≡ (db, m)
unfolding ensure_mailbox
ensure_known now user_id name db m e = rw (e, ensure_mailbox)

ensure_unknown :
    (now user_id : ℕ) (name : Text) (db : Db)
    → get_mailbox user_id name db ≡ none
    → ensure_mailbox now user_id name db
      ≡ (with_mailbox now user_id name db, new_mailbox now user_id name db)
unfolding ensure_mailbox
ensure_unknown now user_id name db e = rw (e, ensure_mailbox)

-- `EnsureMailbox` answers the mailbox that the user then has under the name, and every other name,
-- and other user, is looked up as before; asking again, at any time, answers the same mailbox and
-- changes nothing.
ensure_mailbox_lem :
    (now later user_id other : ℕ) (name other_name : Text) (db : Db)
    → (get_mailbox other other_name (ensure_mailbox now user_id name db).0 ≡ (
        if user_id == other && name == other_name
        then some (ensure_mailbox now user_id name db).1
        else get_mailbox other other_name db))
      × (ensure_mailbox later user_id name (ensure_mailbox now user_id name db).0
          ≡ ensure_mailbox now user_id name db)
ensure_mailbox_lem now later user_id other name other_name db =
    elim (Option-cases (get_mailbox user_id name db)) [
      | inr (m, e) ↦
          rw (ensure_known now user_id name db m e)
            (found_again m e, ensure_known later user_id name db m e)
      | inl e ↦ rw (ensure_unknown now user_id name db e) (
        get_mailbox-added (new_mailbox now user_id name db) user_id other name other_name db
            (suc db.next_mailbox) refl refl e,
        ensure_known later user_id name (with_mailbox now user_id name db)
            (new_mailbox now user_id name db)
            (get_mailbox-added (new_mailbox now user_id name db) user_id user_id name name db
                (suc db.next_mailbox) refl refl e
              ∙ rw (same_refl user_id, same_refl name)),
      )
    ]
  where
    found_again :
        (m : Mailbox)
        → get_mailbox user_id name db ≡ some m
        → get_mailbox other other_name db ≡ (
            if user_id == other && name == other_name
            then some m
            else get_mailbox other other_name db)
    found_again m e = ground (arith, e, text_beq_iff name other_name)
