-- ===== src/Webmail/Access/Tests.antt =====
-- Runs of internal/webmail/auth_handlers.go and of internal/imapbackend/server.go.
use mailroom.Prelude.{
  lookup, Text, [], arith, codes, false, if◌then◌else◌, ltb, nat_eq, none, refl, some, text_beq_iff,
  text_eq, to_lower, trim_space, true, ◌+◌, ◌==◌, ◌∷◌, ◌≡◌,
}
use mailroom.Ratelimit.{Limiter}
use mailroom.Store.{Db, User, empty_db, ok}
use mailroom.Store.Users.{
  Bcrypt, IsBcrypt, create_user, delete_user, ensure_domain, get_user_by_email, verify_password,
}
use mailroom.Store.Users.Directory.{created}
use mailroom.Imap.Accounts.{authenticate, login, user_for, verified}
use mailroom.Imap.Accounts.Guessing.{guesses, guessing_stopped}
use mailroom.Imap.Accounts.Readmission.{readmitted}
use mailroom.Webmail.Access.{Front, after_authenticate, handle_login_submit, on_success, refused}
use mailroom.Webmail.Access.Logins.{handle_login_submit_lem}
use mailroom.Webmail.Sessions.{create, get, session_ttl}

-- A stand-in for bcrypt.
abbrev marked : Bcrypt
marked = record { hash = λ p. some (b'$' ∷ p); matches = λ h p. h == b'$' ∷ p }

abbrev alice : User
alice = record {
  id = 1;
  domain_id = 1;
  local_part = codes "alice";
  email = codes "alice@a.org";
  password_hash = codes "$pw";
  is_admin = true;
}

abbrev with_alice : Db
with_alice = record empty_db {
  users = alice ∷ [];
  next_user = 2;
  domains = record { id = 1; name = codes "a.org" } ∷ [];
  next_domain = 2;
}

abbrev client : Text
client = codes "203.0.113.7"

abbrev two_strikes : Limiter
two_strikes = record { max_attempts = 2; window = 60; ban_duration = 100; entries = [] }

guessing_stopped_example :
    (login marked 110 client (codes "alice@a.org") (codes "pw") with_alice (
      guesses marked client with_alice
        ((10, codes "alice@a.org", codes "a") ∷ (20, codes "alice@a.org", codes "b") ∷ [])
        (some two_strikes, []))).1
    ≡ none
unfolding verified lookup trim_space
guessing_stopped_example =
    guessing_stopped marked client with_alice two_strikes [] 5 110
      ((10, codes "alice@a.org", codes "a") ∷ []) (20, codes "alice@a.org", codes "b")
      (codes "alice@a.org") (codes "pw") tt refl refl (omega arith)
      ((refl, omega arith, omega arith), tt) (refl, omega arith, omega arith) refl (omega arith)

marked-IsBcrypt : IsBcrypt marked
marked-IsBcrypt = record { hash_matches = λ p h e. ground (arith, e, text_beq_iff h (b'$' ∷ p)) }

abbrev new_alice : User
new_alice = record alice { id = 2; password_hash = codes "$new"; is_admin = false }

readmitted_example :
    authenticate marked
      (codes "alice@a.org")
      (codes "new")
      (created marked
        (codes "a.org")
        (codes "alice")
        (codes "new")
        false
        (delete_user 1 with_alice)).0
      ((codes "alice@a.org", alice) ∷ [])
    ≡ ((codes "alice@a.org", alice) ∷ [], some alice)
unfolding create_user ensure_domain delete_user lookup to_lower trim_space
readmitted_example =
    readmitted marked alice new_alice (codes "a.org") (codes "alice") (codes "new")
      (codes "alice@a.org") with_alice ((codes "alice@a.org", alice) ∷ []) marked-IsBcrypt refl refl
      refl

abbrev front : Front
front = record { limiter = some two_strikes; users = []; sessions = [] }

handle_login_submit_lem_example :
    let s1 =
      (handle_login_submit marked 10 client
        (some (codes "t"))
        (codes "alice@a.org")
        (codes "pw")
        with_alice
        front).0 in
    (refused front.limiter 10 client ≡ false)
    × (s1.limiter ≡ on_success front.limiter client)
    × ((row u : User) × (get_user_by_email with_alice (to_lower (trim_space (codes "alice@a.org")))
          ≡ ok row)
        × (verify_password marked row (codes "pw") ≡ true)
        × (user_for row front.users ≡ (s1.users, u))
        × ((get (codes "t") 20 s1.sessions).1
            ≡ (if ltb (10 + session_ttl) 20 then none else some u)))
unfolding handle_login_submit after_authenticate authenticate verified user_for refused create
    lookup to_lower trim_space
handle_login_submit_lem_example =
    handle_login_submit_lem marked 10 20 client (some (codes "t")) (codes "alice@a.org")
      (codes "pw") with_alice front (codes "t") refl
