-- ===== src/Webmail/Sessions/Expiry.antt =====
-- internal/webmail/session.go: how long a token opens its account, and that it opens no other.
use mailroom.Prelude.{
  Bool-cases, Text, arith, if◌then◌else◌, inl, inr, lookup-insert, lookup-remove, ltb, nat_eq, none,
  refl, some, text_eq, ℕ, ◌+◌, ◌==◌, ◌≡◌,
}
use mailroom.Store.{User}
use mailroom.Webmail.Sessions.{SessionStore, create, delete, get, session_ttl}

-- After a login a token opens the account until the session's time has passed, and not after; any
-- other token opens what it opened before.
pub get-create :
    (token other : Text) (now later : ℕ) (account : User) (s : SessionStore)
    → (get other later (create (some token) now account s).0).1 ≡ (
        if token == other
        then (if ltb (now + session_ttl) later then none else some account)
        else (get other later s).1)
unfolding get create
get-create token other now later account s = elim (Bool-cases (token == other)) [
  | inl same ↦
      rw
        (
          get,
          lookup-insert token other (record { account = account; expires = now + session_ttl }) s,
          same,
        )
        (ground arith)
  | inr differs ↦
      rw
        (
          get,
          lookup-insert token other (record { account = account; expires = now + session_ttl }) s,
          differs,
        )
        (ground arith)
]

-- After a logout the token opens nothing, and other tokens open what they opened before.
get-delete :
    (token other : Text) (later : ℕ) (s : SessionStore)
    → (get other later (delete token s)).1
      ≡ (if token == other then none else (get other later s).1)
unfolding get delete
get-delete token other later s = elim (Bool-cases (token == other)) [
  | inl same ↦ rw (get, lookup-remove token other s, same) refl
  | inr differs ↦ rw (get, lookup-remove token other s, differs) (ground arith)
]
