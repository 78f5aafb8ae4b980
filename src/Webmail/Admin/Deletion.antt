-- ===== src/Webmail/Admin/Deletion.antt =====
-- internal/webmail/admin_handlers.go: who is left after a mailbox is deleted.
use mailroom.Prelude.{
  All, Bool-cases, List, Option, Text, [], any, ap, arith, equal_fold, false, inl, inr, keep,
  nat_eq, none, not, refl, same_refl, some, sym, text_beq_iff, text_eq, to_lower, true, ℕ, ◌==◌,
  ◌∙◌, ◌∷◌, ◌≡◌, ◌≢◌, ◌⊎◌,
}
use mailroom.Maildir.Paths.{FilePath}
use mailroom.Store.{Db, Result, User, err, ok}
use mailroom.Store.Users.{delete_user, get_user_by_id}
use mailroom.Store.Users.Cascade.{delete_user_lem}
use mailroom.Webmail.Access.{entered, require_admin, require_auth}
use mailroom.Webmail.Admin.{handle_admin_delete_user, request_delete, root_of, to_admin}
use mailroom.Webmail.Sessions.{SessionStore, get}

-- What is in the database under its identifier.
abbrev pub Present : Db → User → Type 0
Present db u = get_user_by_id db u.id ≡ ok u

handler_deletes :
    (base : FilePath) (account target : User) (db : Db)
    → Present db target
    → equal_fold target.email account.email ≡ false
    → handle_admin_delete_user base account (some target.id) db
      ≡ (delete_user target.id db, some (root_of base target.email), to_admin)
unfolding handle_admin_delete_user
handler_deletes base account target db there other =
    rw (handle_admin_delete_user, there, other) refl

equal_fold_refl : (s : Text) → equal_fold s s ≡ true
unfolding equal_fold
equal_fold_refl s = same_refl (to_lower s)

equal_fold_sym : (s t : Text) → equal_fold s t ≡ false → equal_fold t s ≡ false
unfolding equal_fold
equal_fold_sym s t h =
    ground
      (arith, h, text_beq_iff (to_lower s) (to_lower t), text_beq_iff (to_lower t) (to_lower s))

delete_other :
    (id : ℕ) (u : User) (db : Db) → u.id ≢ id → Present db u → Present (delete_user id db) u
delete_other id u db ne there = (delete_user_lem id u.id 0 db ne).3 ∙ there

-- The target that has the account's identifier is the account.
not_self :
    (account target : User) (id : ℕ) (db : Db)
    → Present db account
    → get_user_by_id db id ≡ ok target
    → equal_fold target.email account.email ≡ false
    → account.id ≢ id
not_self account target id db there q other e =
    let same : ok account ≡ ok target = sym there ∙ ap (get_user_by_id db) e ∙ q in
    let it : account ≡ target = cc (same) in
    let fold = equal_fold_refl account.email in absurd (cc (it, fold, other))

acting_stays_case :
    (base : FilePath) (account : User) (id : ℕ) (db : Db) (r : Result User)
    → get_user_by_id db id ≡ r
    → Present db account
    → Present (handle_admin_delete_user base account (some id) db).0 account
unfolding handle_admin_delete_user
acting_stays_case base account id db (err e) q there = rw (handle_admin_delete_user, q) there
acting_stays_case base account id db (ok target) q there =
    elim (Bool-cases (equal_fold target.email account.email)) [
      | inl same ↦ rw (handle_admin_delete_user, q, same) there
      | inr other ↦
          rw (handle_admin_delete_user, q, other)
            (delete_other id account db (not_self account target id db there q other) there)
    ]

-- What the handler's comment promises holds for an account that is in the database: it is still there
-- after whatever it deletes.
acting_stays :
    (base : FilePath) (account : User) (id : Option ℕ) (db : Db)
    → Present db account
    → Present (handle_admin_delete_user base account id db).0 account
unfolding handle_admin_delete_user
acting_stays base account none db there = there
acting_stays base account (some id) db there =
    acting_stays_case base account id db (get_user_by_id db id) refl there

admitted :
    (now : ℕ) (token : Text) (account : User) (s : SessionStore)
    → get token now s ≡ (s, some account)
    → account.is_admin ≡ true
    → require_admin now (some token) s ≡ (s, entered account)
unfolding require_admin require_auth
admitted now token account s opens admin = rw (opens, admin) refl

request_by :
    (base : FilePath) (now : ℕ) (token : Text) (account target : User) (s : SessionStore) (db : Db)
    → get token now s ≡ (s, some account)
    → account.is_admin ≡ true
    → Present db target
    → equal_fold target.email account.email ≡ false
    → (request_delete base now (some token) (some target.id) (s, db)).0
      ≡ (s, delete_user target.id db)
unfolding request_delete
request_by base now token account target s db opens admin there other =
    let entry = admitted now token account s opens admin in
    rw (request_delete, entry, handler_deletes base account target db there other)
      (ap (λ x. (x.0, delete_user target.id db)) entry)

none_left :
    (a b : ℕ) (users : List User)
    → All (λ u. u.is_admin ≡ true → (u.id ≡ a) ⊎ (u.id ≡ b)) users
    → any (λ u. u.is_admin) (keep (λ u. not (u.id == a)) (keep (λ u. not (u.id == b)) users))
      ≡ false
unfolding any keep
none_left a b [] h = refl
none_left a b (u ∷ users) h = ground (arith, h.0, none_left a b users h.1)

-- No admin may be left: where two admins are logged in and are the only ones, one deletes the other,
-- and the deleted one, whose session still opens the account, deletes the first.
pub no_admin_left :
    (base : FilePath) (now later : ℕ) (ta tb : Text) (a b : User) (s : SessionStore) (db : Db)
    → get ta now s ≡ (s, some a)
    → get tb later s ≡ (s, some b)
    → a.is_admin ≡ true
    → b.is_admin ≡ true
    → Present db a
    → Present db b
    → a.id ≢ b.id
    → equal_fold a.email b.email ≡ false
    → All (λ u. u.is_admin ≡ true → (u.id ≡ a.id) ⊎ (u.id ≡ b.id)) db.users
    → any
        (λ u. u.is_admin)
        (request_delete base later
          (some tb)
          (some a.id)
          (request_delete base now (some ta) (some b.id) (s, db)).0).0.1.users
      ≡ false
unfolding delete_user
no_admin_left base now later ta tb a b s db opens_a opens_b admin_a admin_b there_a there_b ne apart
      only =
    let first =
      request_by base now ta a b s db opens_a admin_a there_b
        (equal_fold_sym a.email b.email apart) in
    let second =
      request_by base later tb b a s (delete_user b.id db) opens_b admin_b
        (delete_other b.id a db ne there_a) apart in
    rw (first, second) (none_left a.id b.id db.users only)
