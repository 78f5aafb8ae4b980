-- ===== src/Smtp/Submission/Login.antt =====
-- internal/smtpserver/submission.go: what needs a login, and what a login needs.
use mailroom.Ratelimit
use mailroom.Ratelimit.Count.{Burst, ban_at_max, count_failures, no_early_ban}
use mailroom.Ratelimit.Isolation.{IsMap}
use mailroom.Ratelimit.{Event, record_failure, Limiter, allowed}
use mailroom.Prelude.{
  lookup, suc, true, ◌+◌, ◌<◌, ◌≤◌, ◌∙◌, All, Bool-cases, List, Option, Text, [], arith, false, inl,
  inr, none, refl, some, text_beq_iff, text_eq, nat_eq, ℕ, ◌∷◌, ◌≡◌, ◌≢◌,
}
use mailroom.Store.{Db}
use mailroom.Store.Users.{Bcrypt}
use mailroom.Mailsend.{Config, Log, Outlet}
use mailroom.Smtp.Submission.{
  Command, Session, State, auth, auth_command, auth_failed, blocked, content_command, credentials,
  data_command, mail, mail_command, new_session, note_failure, rcpt, rcpt_command, require_auth,
  reset, reset_command, run, step,
}

-- A command that gives no user's password.
abbrev pub NoPassword : Bcrypt → Db → Command → Type 0
NoPassword b db (auth_command now username password) = credentials b db username password ≡ none
NoPassword b db (mail_command from) = Unit
NoPassword b db (rcpt_command to) = Unit
NoPassword b db (content_command date content) = Unit
NoPassword b db reset_command = Unit

-- Nobody is logged in, and the log is the one given.
abbrev Silent : Log → State → Type 0
Silent log st = (st.session.username ≡ []) × (st.log ≡ log)

module _ (cfg : Config) (b : Bcrypt) (db : Db) (stores : Outlet)
    (signer : Option (Text → Text → Option Text)) (ip helo : Text) where
  step-Silent :
      (c : Command) (st : State) (log : Log)
      → NoPassword b db c
      → Silent log st
      → Silent log (step cfg b db stores signer ip helo c st)
  unfolding step auth mail rcpt data_command reset require_auth
  step-Silent (auth_command now username password) st log wrong (nobody, same) =
      elim (Bool-cases (blocked st.limiter now ip)) [
        | inl banned ↦ rw (step, auth, banned) (nobody, same)
        | inr free ↦ rw (step, auth, free, wrong) (nobody, same)
      ]
  step-Silent (mail_command from) st log wrong (nobody, same) =
      rw (step, mail, require_auth, nobody) (refl, same)
  step-Silent (rcpt_command to) st log wrong (nobody, same) =
      rw (step, rcpt, require_auth, nobody) (refl, same)
  step-Silent (content_command date content) st log wrong (nobody, same) =
      rw (step, data_command, require_auth, nobody) (refl, same)
  step-Silent reset_command st log wrong (nobody, same) = (nobody, same)

  run-Silent :
      (cs : List Command) (st : State) (log : Log)
      → All (NoPassword b db) cs
      → Silent log st
      → Silent log (run cfg b db stores signer ip helo cs st)
  unfolding run
  run-Silent [] st log wrong silent = silent
  run-Silent (c ∷ cs) st log (w, wrong) silent =
      run-Silent cs (step cfg b db stores signer ip helo c st) log wrong
        (step-Silent c st log w silent)

  -- On a connection that never gives a user's password, whatever its commands, nothing is stored or
  -- queued, and nobody is logged in.
  pub no_login_no_mail :
      (cs : List Command) (limiter : Option Limiter) (log : Log)
      → All (NoPassword b db) cs
      → ((run cfg b db stores signer ip helo cs
            (record { limiter = limiter; session = new_session; log = log })).log
          ≡ log)
        × ((run cfg b db stores signer ip helo cs
              (record { limiter = limiter; session = new_session; log = log })).session.username
            ≡ [])
  no_login_no_mail cs limiter log wrong =
      let (nobody, same) =
        run-Silent cs (record { limiter = limiter; session = new_session; log = log }) log wrong
          (refl, refl) in
      (same, nobody)

banned_login :
    (b : Bcrypt) (db : Db) (now : ℕ) (ip username password : Text) (l : Limiter) (s : Session)
    → ip ≢ []
    → allowed l now ip ≡ false
    → auth b db now ip username password (some l) s ≡ (some l, s, auth_failed)
unfolding auth blocked
banned_login b db now ip username password l s known banned =
    rw (banned) (ground (arith, known, text_beq_iff ip []))

-- A wrong password of an address that is not banned is told to the limiter.
wrong_login :
    (b : Bcrypt) (db : Db) (now : ℕ) (ip username password : Text) (l : Limiter) (s : Session)
    → ip ≢ []
    → allowed l now ip ≡ true
    → credentials b db username password ≡ none
    → auth b db now ip username password (some l) s
      ≡ (some (record_failure l now ip), s, auth_failed)
unfolding auth blocked note_failure
wrong_login b db now ip username password l s known free wrong =
    rw (free, wrong) (ground (arith, known, text_beq_iff ip []))

-- Guessing is stopped: for an address that the limiter has no older entry of, the wrong password that
-- reaches the maximum of failures within one window bans it: up to the end of the ban its next login
-- is refused, whatever the password, and changes nothing. The connection has an address, and the time
-- is not zero.
guessing_banned :
    (b : Bcrypt) (db : Db) (l : Limiter) (ip : Text) (t0 now later : ℕ) (evs : List (ℕ × Event))
    (username wrong other any_password : Text) (s : Session)
    → ip ≢ []
    → IsMap l
    → lookup ip l.entries ≡ none
    → All (Burst l ip t0) evs
    → now < t0 + l.window
    → suc (count_failures ip evs) ≡ l.max_attempts
    → 0 < now
    → credentials b db username wrong ≡ none
    → later ≤ now + l.ban_duration
    → auth b db later ip other any_password
        (auth b db now ip username wrong (some (Ratelimit.run l evs)) s).0
        s
      ≡ ((auth b db now ip username wrong (some (Ratelimit.run l evs)) s).0, s, auth_failed)
guessing_banned b db l ip t0 now later evs username wrong other any_password s known u fresh burst
      window max started w in_time =
    let free = no_early_ban l ip evs now u fresh (omega (arith, max)) started in
    let told = wrong_login b db now ip username wrong (Ratelimit.run l evs) s known free w in
    let banned = ban_at_max l ip t0 now later evs u fresh burst window max in
    rw (told) (
      banned_login b db later ip other any_password (record_failure (Ratelimit.run l evs) now ip) s
        known (banned ∙ ground (arith, in_time)))
