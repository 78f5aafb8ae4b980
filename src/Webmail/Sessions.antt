-- ===== src/Webmail/Sessions.antt =====
-- internal/webmail/session.go: the table of logged-in sessions. An account is the user's row as it was
-- read when the account was first opened; a token is what randomToken gave, or none where the random
-- source fails.
pub mod Expiry
use mailroom.Prelude.{
  List, Option, Text, [], if◌then◌else◌, insert, lookup, ltb, nat_eq, none, remove, some, text_eq,
  ℕ, ◌+◌,
}
use mailroom.Store.{User}

pub record Session : Type 0 where
  pub account : User
  pub expires : ℕ

abbrev pub SessionStore : Type 0
SessionStore = List (Text × Session)

-- 24 hours of nanoseconds.
abbrev pub session_ttl : ℕ
session_ttl = 86400000000000

unfoldable pub new_session_store : SessionStore
new_session_store = []

unfoldable pub create : Option Text → ℕ → User → SessionStore → SessionStore × Option Text
unfolding insert
create none now account s = (s, none)
create (some token) now account s =
    (insert token (record { account = account; expires = now + session_ttl }) s, some token)

unfoldable pub get : Text → ℕ → SessionStore → SessionStore × Option User
unfolding lookup remove
get token now s = elim (lookup token s) [
  | none ↦ (s, none)
  | some sess ↦ if ltb sess.expires now then (remove token s, none) else (s, some sess.account)
]

unfoldable pub delete : Text → SessionStore → SessionStore
unfolding remove
delete token s = remove token s
