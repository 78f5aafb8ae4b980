-- ===== src/Webmail/Access/Logins.antt =====
-- internal/webmail/auth_handlers.go, beside Login of internal/imapbackend/server.go.
use mailroom.Prelude.{
  Bool-cases, Option, Option-cases, Text, false, if◌then◌else◌, inl, inr, ltb, nat_eq, none, refl,
  same_refl, some, subst, text_eq, to_lower, trim_space, true, ℕ, ◌+◌, ◌∙◌, ◌≡◌, ◌≢◌,
}
use mailroom.Ratelimit.{no_entry}
use mailroom.Store.{Db, User, ok, Result-cases}
use mailroom.Store.Users.{Bcrypt, get_user_by_email, verify_password}
use mailroom.Imap.Accounts.{Limited, Users, authenticate, blocked, login, user_for, verified}
use mailroom.Webmail.Access.{
  Front, after_authenticate, handle_login_submit, on_success, opened, refused, too_many,
}
use mailroom.Webmail.Sessions.Expiry.{get-create}
use mailroom.Webmail.Sessions.{create, get, session_ttl}

not_opened : (t : Text) → too_many ≢ opened t
not_opened t e = absurd (cc (e))

after_authenticate_lem :
    (now later : ℕ) (ip : Text) (token : Option Text) (s : Front) (r : Users × Option User)
    (t : Text)
    → (after_authenticate now ip token s r).1 ≡ opened t
    → let s1 = (after_authenticate now ip token s r).0 in
      (s1.limiter ≡ on_success s.limiter ip)
      × ((u : User) × (r ≡ (s1.users, some u))
          × ((get t later s1.sessions).1
              ≡ (if ltb (now + session_ttl) later then none else some u)))
unfolding after_authenticate create
after_authenticate_lem now later ip token s (users, none) t h = absurd (cc (h))
after_authenticate_lem now later ip none s (users, some u) t h = absurd (cc (h))
after_authenticate_lem now later ip (some k) s (users, some u) t h =
    let same : k ≡ t = cc (h) in
    (
      refl,
      (
        u,
        refl,
        subst
            (λ x.
              (get x later (create (some k) now u s.sessions).0).1
              ≡ (if ltb (now + session_ttl) later then none else some u))
            same (get-create k k now later u s.sessions ∙ rw (same_refl k) refl),
      ),
    )

-- What Authenticate answers is the account of a row that has the address, whose password was given.
authenticate-verified :
    (b : Bcrypt) (email password : Text) (db : Db) (users users1 : Users) (u : User)
    → authenticate b email password db users ≡ (users1, some u)
    → (row : User) × (get_user_by_email db (to_lower (trim_space email)) ≡ ok row)
      × (verify_password b row password ≡ true)
      × (user_for row users ≡ (users1, u))
unfolding authenticate verified
authenticate-verified b email password db users users1 u h =
    elim (Result-cases (get_user_by_email db (to_lower (trim_space email)))) [
      | inl (e, unknown) ↦ absurd (cc (rw (authenticate, verified, unknown) at h))
      | inr (row, known) ↦ elim (Bool-cases (verify_password b row password)) [
        | inr wrong ↦ absurd (cc (rw (authenticate, verified, known, wrong) at h))
        | inl right ↦
            let opened_it : ((user_for row users).0, some (user_for row users).1)
                ≡ (users1, some u) =
              rw (authenticate, verified, known, right) at h in
            (row, known, right, cc opened_it)
      ]
    ]

-- A login that is answered with a token was not refused by the limiter, and the password it gave is the
-- one of the row that has its address; the token opens the account that the table of users has for
-- that row, until the session's time has passed; and the address's failures are forgotten.
pub handle_login_submit_lem :
    (b : Bcrypt) (now later : ℕ) (ip : Text) (token : Option Text) (email password : Text) (db : Db)
    (s : Front) (t : Text)
    → (handle_login_submit b now ip token email password db s).1 ≡ opened t
    → let s1 = (handle_login_submit b now ip token email password db s).0 in
      (refused s.limiter now ip ≡ false)
      × (s1.limiter ≡ on_success s.limiter ip)
      × ((row u : User) × (get_user_by_email db (to_lower (trim_space email)) ≡ ok row)
          × (verify_password b row password ≡ true)
          × (user_for row s.users ≡ (s1.users, u))
          × ((get t later s1.sessions).1
              ≡ (if ltb (now + session_ttl) later then none else some u)))
unfolding handle_login_submit
handle_login_submit_lem b now later ip token email password db s t h =
    elim (Bool-cases (refused s.limiter now ip)) [
      | inl no_entry ↦ absurd (not_opened t (rw (handle_login_submit, no_entry) at h))
      | inr free ↦
          let s1 = after_authenticate now ip token s (authenticate b email password db s.users) in
          let (forgotten, account) =
            after_authenticate_lem now later ip token s (authenticate b email password db s.users) t
              (rw (handle_login_submit, free) at h) in
          let (u, answered, opens) = account in
          let (row, known, right, same) =
            authenticate-verified b email password db s.users s1.0.users u answered in
          rw (handle_login_submit, free) (refl, forgotten, (row, u, known, right, same, opens))
    ]

-- The two ways in agree: where the limiter lets the address through, a login over IMAP opens the
-- account that one over the web opens, and leaves the same table of users.
login-authenticate :
    (b : Bcrypt) (now : ℕ) (ip username password : Text) (db : Db) (limiter : Limited)
    (users : Users)
    → blocked limiter now ip ≡ false
    → let (state, account) = login b now ip username password db (limiter, users) in
      (state.1, account) ≡ authenticate b username password db users
unfolding login authenticate
login-authenticate b now ip username password db limiter users free =
    elim (Option-cases (verified b (to_lower (trim_space username)) password db)) [
      | inl wrong ↦ rw (login, authenticate, free, wrong) refl
      | inr (u, right) ↦ rw (login, authenticate, free, right) refl
    ]
