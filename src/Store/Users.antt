-- ===== src/Store/Users.antt =====
-- internal/store/store.go: domains and users. bcrypt is a parameter: `hash` is
-- bcrypt.GenerateFromPassword, which may fail, and `matches` is bcrypt.CompareHashAndPassword.
pub mod Directory
pub mod Cascade
use mailroom.Prelude.{
  Bool, List, Option, Text, [], any, change, find_first, if◌then◌else◌, keep, nat_eq, none, not,
  some, sort_by, suc, text_eq, text_ltb, to_lower, true, ℕ, ◌&&◌, ◌++◌, ◌==◌, ◌||◌, ◌∷◌, ◌≡◌,
}
use mailroom.Store.{Db, Domain, Result, User, constraint, err, hashing, not_found, ok}

pub record Bcrypt : Type 0 where
  pub hash : Text → Option Text
  pub matches : Text → Text → Bool

-- What is relied on: the hash of a password matches the password.
pub record IsBcrypt (b : Bcrypt) : Type 0 where
  pub hash_matches : (password h : Text) → b.hash password ≡ some h → b.matches h password ≡ true

unfoldable pub find_domain : Db → Text → Option Domain
unfolding find_first
find_domain db name = find_first (λ d. d.name == name) db.domains

unfoldable pub domain_exists : Db → Text → Bool
unfolding any to_lower
domain_exists db name = any (λ d. d.name == to_lower name) db.domains

-- EnsureDomain; the name is UNIQUE, and a missing one is inserted.
unfoldable pub ensure_domain : Text → Db → Db × Domain
unfolding find_domain to_lower
ensure_domain name db = elim (find_domain db (to_lower name)) [
  | some d ↦ (db, d)
  | none ↦
      let d : Domain = record { id = db.next_domain; name = to_lower name } in
      (record db { domains = db.domains ++ d ∷ []; next_domain = suc db.next_domain }, d)
]

unfoldable pub or_not_found : {A : Type 0} → Option A → Result A
or_not_found none = err not_found
or_not_found (some a) = ok a

unfoldable pub get_user_by_email : Db → Text → Result User
unfolding find_first to_lower or_not_found
get_user_by_email db email = or_not_found (find_first (λ u. u.email == to_lower email) db.users)

unfoldable pub get_user_by_id : Db → ℕ → Result User
unfolding find_first or_not_found
get_user_by_id db id = or_not_found (find_first (λ u. u.id == id) db.users)

unfoldable pub list_users : Db → List User
unfolding sort_by text_ltb
list_users db = sort_by (λ u v. text_ltb u.email v.email) db.users

-- DeleteUser; the users' mailboxes, their messages and the forwarding rule go with the user.
unfoldable pub delete_user : ℕ → Db → Db
unfolding keep any
delete_user id db =
    let gone = λ (mailbox_id : ℕ). any (λ m. m.id == mailbox_id && m.user_id == id) db.mailboxes in
    record db {
      users = keep (λ u. not (u.id == id)) db.users;
      mailboxes = keep (λ m. not (m.user_id == id)) db.mailboxes;
      messages = keep (λ r. not (gone r.mailbox_id)) db.messages;
      forwarding = keep (λ f. not (f.user_id == id)) db.forwarding;
    }

-- The constraints of the users table: the email, and the domain with the local part, are UNIQUE.
clashes : ℕ → Text → Text → User → Bool
clashes domain_id local_part email u =
    u.email == email || (u.domain_id == domain_id && u.local_part == local_part)

module _ (b : Bcrypt) where
  -- CreateUser. The domain stays where a later step fails.
  unfoldable pub create_user : Text → Text → Text → Bool → Db → Db × Result User
  unfolding clashes any
  create_user domain_name local_part password is_admin db =
      let domain_name = to_lower domain_name in
      let local_part = to_lower local_part in
      let (db1, domain) = ensure_domain domain_name db in
      elim (b.hash password) [
        | none ↦ (db1, err hashing)
        | some hash ↦
            let email = local_part ++ b'@' ∷ domain_name in
            if any (clashes domain.id local_part email) db1.users
            then (db1, err constraint)
            else let u : User = record {
              id = db1.next_user;
              domain_id = domain.id;
              local_part = local_part;
              email = email;
              password_hash = hash;
              is_admin = is_admin;
            } in
              (record db1 { users = db1.users ++ u ∷ []; next_user = suc db1.next_user }, ok u)
      ]

  -- SetPassword; an unknown user is no error.
  unfoldable pub set_password : ℕ → Text → Db → Db × Result (Unit {0})
  unfolding change
  set_password user_id new_password db = elim (b.hash new_password) [
    | none ↦ (db, err hashing)
    | some hash ↦ (
      record db {
        users = change (λ u. u.id == user_id) (λ u. record u { password_hash = hash }) db.users;
      },
      ok tt,
    )
  ]

  unfoldable pub verify_password : User → Text → Bool
  verify_password u password = b.matches u.password_hash password
