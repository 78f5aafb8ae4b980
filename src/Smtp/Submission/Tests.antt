-- ===== src/Smtp/Submission/Tests.antt =====
-- Runs of internal/smtpserver/submission.go: a client that guesses a password.
use mailroom.Smtp.Submission.Login.{no_login_no_mail}
use mailroom.Smtp.Submission.{
  Command, auth_command, content_command, credentials, mail_command, new_session, rcpt_command, run,
}
use mailroom.Mailsend.{Config}
use mailroom.Store.Users.{Bcrypt, get_user_by_email, verify_password}
use mailroom.Store.{Db, User, empty_db}
use mailroom.Prelude.{
  List, [], codes, false, find_first, is_space, nat_eq, none, refl, some, text_eq, to_lower,
  trim_left, trim_right, trim_space, true, ◌==◌, ◌∷◌, ◌≡◌,
}

abbrev config : Config
config = record {
  domains = codes "a.org" ∷ [];
  hostname = codes "mail.a.org";
  maildir_path = record { rooted = true; segments = codes "mail" ∷ [] };
}

abbrev alice : User
alice = record {
  id = 1;
  domain_id = 1;
  local_part = codes "alice";
  email = codes "alice@a.org";
  password_hash = codes "$pw";
  is_admin = false;
}

abbrev db : Db
db = record empty_db { users = alice ∷ [] }

abbrev marked : Bcrypt
marked = record { hash = λ p. some (b'$' ∷ p); matches = λ h p. h == b'$' ∷ p }

abbrev guesses : List Command
guesses =
    auth_command 5 (codes "alice@a.org") (codes "guess")
    ∷ mail_command (codes "alice@a.org")
    ∷ rcpt_command (codes "x@b.org")
    ∷ content_command (codes "today") (some (codes "spam"))
    ∷ []

no_login_no_mail_example :
    ((run config marked db
        (λ _ _. true)
        none
        (codes "192.0.2.1")
        (codes "pc")
        guesses
        (record { limiter = none; session = new_session; log = [] })).log
      ≡ [])
    × ((run config marked db
          (λ _ _. true)
          none
          (codes "192.0.2.1")
          (codes "pc")
          guesses
          (record { limiter = none; session = new_session; log = [] })).session.username
        ≡ [])
unfolding credentials get_user_by_email verify_password find_first to_lower trim_space trim_left
    trim_right is_space
no_login_no_mail_example =
    no_login_no_mail config marked db (λ _ _. true) none (codes "192.0.2.1") (codes "pc") guesses
      none [] (refl, (tt, (tt, (tt, tt))))
