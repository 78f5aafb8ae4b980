-- ===== src/Webmail/Access.antt =====
-- internal/webmail: which account a request acts for (server.go), the login (auth_handlers.go), and who
-- reaches the administration (admin_handlers.go).
pub mod Logins
mod Tests
use mathlib.Core.Option
use mailroom.Prelude.{
  Bool, Option, Text, false, if◌then◌else◌, map, nat_eq, none, not, some, text_eq, ℕ,
}
use mailroom.Ratelimit.{Limiter, allowed, record_failure, record_success}
use mailroom.Store.{Db, User}
use mailroom.Store.Users.{Bcrypt}
use mailroom.Imap.Accounts.{Users, authenticate}
use mailroom.Webmail.Sessions.{SessionStore, create, delete, get}

-- requireAuth: the account of the cookie's session, or none, and the request goes to the login page.
unfoldable pub require_auth : ℕ → Option Text → SessionStore → SessionStore × Option User
unfolding get
require_auth now none s = (s, none)
require_auth now (some token) s = get token now s

pub data Gate : Type 0 where
  to_login forbidden : Gate
  entered : User → Gate

unfoldable pub require_admin : ℕ → Option Text → SessionStore → SessionStore × Gate
unfolding require_auth
require_admin now cookie s =
    let (s1, account) = require_auth now cookie s in
    (s1, elim account [ none ↦ to_login | some u ↦ if u.is_admin then entered u else forbidden ])

pub record Front : Type 0 where
  pub limiter : Option Limiter
  pub users : Users
  pub sessions : SessionStore

pub data LoginReply : Type 0 where
  too_many invalid no_token : LoginReply
  opened : Text → LoginReply

unfoldable pub on_failure : Option Limiter → ℕ → Text → Option Limiter
unfolding record_failure
on_failure limiter now ip = Option.map (λ l. record_failure l now ip) limiter

unfoldable pub on_success : Option Limiter → Text → Option Limiter
unfolding record_success
on_success limiter ip = Option.map (λ l. record_success l ip) limiter

unfoldable pub refused : Option Limiter → ℕ → Text → Bool
unfolding allowed
refused none now ip = false
refused (some l) now ip = not (allowed l now ip)

-- The part of handleLoginSubmit after Authenticate; `token` is what the random source gives.
unfoldable pub after_authenticate :
    ℕ → Text → Option Text → Front → Users × Option User → Front × LoginReply
unfolding on_failure on_success create
after_authenticate now ip token s (users, none) =
    (record s { limiter = on_failure s.limiter now ip; users = users }, invalid)
after_authenticate now ip token s (users, some u) =
    let (sessions, made) = create token now u s.sessions in
    (
      record { limiter = on_success s.limiter ip; users = users; sessions = sessions },
      elim made [ none ↦ no_token | some t ↦ opened t ],
    )

-- handleLoginSubmit
unfoldable pub handle_login_submit :
    Bcrypt → ℕ → Text → Option Text → Text → Text → Db → Front → Front × LoginReply
unfolding refused after_authenticate
handle_login_submit b now ip token email password db s =
    if refused s.limiter now ip
    then (s, too_many)
    else after_authenticate now ip token s (authenticate b email password db s.users)

-- handleLogout
unfoldable pub handle_logout : Option Text → SessionStore → SessionStore
unfolding delete
handle_logout none s = s
handle_logout (some token) s = delete token s
