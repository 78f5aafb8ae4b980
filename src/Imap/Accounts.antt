-- ===== src/Imap/Accounts.antt =====
-- internal/imapbackend/server.go and webapi.go: who may log in. The table of users is kept for the life
-- of the process and holds for each address the row that was read at its first login; the folders that
-- a user has open are left out here. A client's address is empty where it is not known.
pub mod Guessing
pub mod Readmission
use mailroom.Prelude.{
  Bool, List, Option, Text, false, if◌then◌else◌, insert, is_nil, lookup, nat_eq, none, not, some,
  text_eq, to_lower, trim_space, true, ℕ, ◌&&◌,
}
use mailroom.Ratelimit.{Limiter, allowed, record_failure, record_success}
use mailroom.Store.{Db, User, err, ok}
use mailroom.Store.Users.{Bcrypt, get_user_by_email, get_user_by_id, set_password, verify_password}

abbrev pub Users : Type 0
Users = List (Text × User)

-- userFor
unfoldable pub user_for : User → Users → Users × User
unfolding lookup insert to_lower
user_for u users =
    let email = to_lower u.email in
    elim (lookup email users) [ some old ↦ (users, old) | none ↦ (insert email u users, u) ]

-- The limiter, if there is one.
abbrev pub Limited : Type 0
Limited = Option Limiter

unfoldable pub blocked : Limited → ℕ → Text → Bool
unfolding allowed
blocked none now ip = false
blocked (some l) now ip = not (is_nil ip) && not (allowed l now ip)

unfoldable pub note_failure : Limited → ℕ → Text → Limited
unfolding record_failure
note_failure none now ip = none
note_failure (some l) now ip = some (if is_nil ip then l else record_failure l now ip)

unfoldable pub note_success : Limited → Text → Limited
unfolding record_success
note_success none ip = none
note_success (some l) ip = some (if is_nil ip then l else record_success l ip)

module _ (b : Bcrypt) where
  -- The row of a user who gives the right password.
  unfoldable pub verified : Text → Text → Db → Option User
  unfolding get_user_by_email verify_password
  verified email password db = elim (get_user_by_email db email) [
    | err _ ↦ none
    | ok u ↦ if verify_password b u password then some u else none
  ]

  unfoldable pub authenticate : Text → Text → Db → Users → Users × Option User
  unfolding verified user_for to_lower trim_space
  authenticate email password db users = elim (verified (to_lower (trim_space email)) password db) [
    | none ↦ (users, none)
    | some u ↦ let (users1, account) = user_for u users in (users1, some account)
  ]

  unfoldable pub login :
      ℕ → Text → Text → Text → Db → Limited × Users → (Limited × Users) × Option User
  unfolding blocked verified note_failure note_success user_for to_lower trim_space
  login now ip username password db (limiter, users) =
      if blocked limiter now ip
      then ((limiter, users), none)
      else elim (verified (to_lower (trim_space username)) password db) [
        | none ↦ ((note_failure limiter now ip, users), none)
        | some u ↦
            let (users1, account) = user_for u users in
            ((note_success limiter ip, users1), some account)
      ]

  -- ChangePassword, of the row as it now is.
  unfoldable pub change_password : User → Text → Text → Db → Db × Bool
  unfolding get_user_by_id verify_password set_password
  change_password account current_password new_password db = elim (get_user_by_id db account.id) [
    | err _ ↦ (db, false)
    | ok fresh ↦
        let (db1, answer) = set_password b fresh.id new_password db in
        if not (verify_password b fresh current_password)
        then (db, false)
        else elim answer [ err _ ↦ (db1, false) | ok _ ↦ (db1, true) ]
  ]
