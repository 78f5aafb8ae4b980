-- ===== src/Smtp/Submission.antt =====
-- internal/smtpserver/submission.go: the submission port, for mail of authenticated users. The
-- client's address (empty where the connection has none), the clock and its text are arguments.
mod Login
mod Tests
use mailroom.Prelude.{
  Bool, List, Option, Text, [], codes, false, if◌then◌else◌, is_nil, join, nat_eq, none, not, some,
  text_eq, to_lower, trim_space, ℕ, ◌&&◌, ◌++◌, ◌<◌, ◌==◌, ◌∷◌,
}
use mailroom.Address.{split}
use mailroom.Ratelimit.{Limiter, allowed, record_failure, record_success}
use mailroom.Store.{Db, User, err, ok}
use mailroom.Store.Users.{Bcrypt, get_user_by_email, verify_password}
use mailroom.Mailsend.{
  Config, Log, Outlet, SendResult, invalid_recipient, invalid_sender, is_local_domain, not_stored,
  send, sent, signing_failed,
}
use mailroom.Smtp.{Reply, accepted, refused, unreadable}

pub record Session : Type 0 where
  pub username : Text
  pub from : Text
  pub rcpts : List Text

abbrev pub new_session : Session
new_session = record { username = []; from = []; rcpts = [] }

abbrev pub auth_required : Reply
auth_required = refused 530 (codes "Authentication required")

-- smtp.ErrAuthFailed of the library, by its code in the SMTP extension for authentication.
abbrev pub auth_failed : Reply
auth_failed = refused 535 (codes "Authentication failed")

-- What the limiter is asked and told; it is `none` where none is set, and skipped for no address.
unfoldable pub blocked : Option Limiter → ℕ → Text → Bool
blocked none now ip = false
blocked (some l) now ip = not (ip == []) && not (allowed l now ip)

unfoldable pub note_failure : Option Limiter → ℕ → Text → Option Limiter
note_failure none now ip = none
note_failure (some l) now ip = if ip == [] then some l else some (record_failure l now ip)

unfoldable pub note_success : Option Limiter → Text → Option Limiter
note_success none ip = none
note_success (some l) ip = if ip == [] then some l else some (record_success l ip)

-- The user that a name and a password belong to.
unfoldable pub credentials : Bcrypt → Db → Text → Text → Option User
unfolding to_lower trim_space
credentials b db username password = elim (get_user_by_email db (to_lower (trim_space username))) [
  | err _ ↦ none
  | ok u ↦ if verify_password b u password then some u else none
]

-- The function that Auth gives to the PLAIN mechanism.
unfoldable pub auth :
    Bcrypt
    → Db
    → ℕ
    → Text
    → Text
    → Text
    → Option Limiter
    → Session
    → Option Limiter × Session × Reply
unfolding blocked note_failure note_success credentials
auth b db now ip username password limiter s =
    if blocked limiter now ip
    then (limiter, s, auth_failed)
    else elim (credentials b db username password) [
      | none ↦ (note_failure limiter now ip, s, auth_failed)
      | some u ↦ (note_success limiter ip, record s { username = u.email }, accepted)
    ]

-- requireAuth
unfoldable pub require_auth : Session → Bool
require_auth s = s.username == []

-- Mail
unfoldable pub mail : Text → Session → Session × Reply
unfolding require_auth
mail from s =
    if require_auth s then (s, auth_required) else (record s { from = from; rcpts = [] }, accepted)

-- Rcpt
unfoldable pub rcpt : Config → Db → Text → Session → Session × Reply
unfolding require_auth to_lower trim_space
rcpt cfg db to s =
    let addr = to_lower (trim_space to) in
    let added : Session × Reply = (record s { rcpts = s.rcpts ++ addr ∷ [] }, accepted) in
    if require_auth s then (s, auth_required) else elim (split addr) [
      | none ↦ (s, refused 501 (codes "Malformed recipient address"))
      | some (local_part, domain) ↦
          if is_local_domain cfg domain
          then (elim (get_user_by_email db addr) [
            | err _ ↦ (s, refused 550 (codes "No such user here"))
            | ok _ ↦ added
          ])
          else added
    ]

-- receivedHeader
unfoldable pub received_header : Config → Text → Text → Text → Session → Text
unfolding join
received_header cfg ip helo date s =
    codes "Received: from "
    ++ (helo
        ++ (codes " (["
            ++ ((if ip == [] then codes "unknown" else ip)
                ++ (codes "])\r\n\tby "
                    ++ (cfg.hostname
                        ++ (codes " (mailserver submission) with ESMTPSA\r\n\tfor <"
                            ++ (join s.rcpts (codes ", ")
                                ++ (codes "> (authenticated as "
                                    ++ (s.username
                                        ++ (codes "); " ++ (date ++ codes "\r\n")))))))))))

-- The reply to what Send answers.
unfoldable pub send_reply : SendResult → Reply
send_reply (sent full) = accepted
send_reply invalid_sender = refused 451 (codes "Temporary error sending message")
send_reply signing_failed = refused 451 (codes "Temporary error sending message")
send_reply (invalid_recipient r) = refused 451 (codes "Temporary error sending message")
send_reply (not_stored r) = refused 451 (codes "Temporary error sending message")

-- Data; `content` is none where the message cannot be read.
unfoldable pub data_command :
    Config
    → Outlet
    → Option (Text → Text → Option Text)
    → Text
    → Text
    → Text
    → Option Text
    → Session
    → Log
    → Log × Reply
unfolding require_auth received_header send_reply send
data_command cfg stores signer ip helo date content s log =
    if require_auth s
    then (log, auth_required)
    else if is_nil s.rcpts
    then (log, refused 554 (codes "No valid recipients"))
    else elim content [
      | none ↦ (log, unreadable)
      | some body ↦
          let result =
            send cfg stores signer s.username s.rcpts (received_header cfg ip helo date s ++ body)
              log in
          (result.0, send_reply result.1)
    ]

-- Reset
unfoldable pub reset : Session → Session
reset s = record s { from = []; rcpts = [] }

-- The commands of a connection, in order.
pub data Command : Type 0 where
  auth_command : ℕ → Text → Text → Command
  mail_command rcpt_command : Text → Command
  content_command : Text → Option Text → Command
  reset_command : Command

-- A connection, the limiter that all connections share and what has been stored.
pub record State : Type 0 where
  pub limiter : Option Limiter
  pub session : Session
  pub log : Log

module _ (cfg : Config) (b : Bcrypt) (db : Db) (stores : Outlet)
    (signer : Option (Text → Text → Option Text)) (ip helo : Text) where
  unfoldable pub step : Command → State → State
  unfolding auth mail rcpt data_command reset
  step (auth_command now username password) st =
      let (limiter, s, _) = auth b db now ip username password st.limiter st.session in
      record st { limiter = limiter; session = s }
  step (mail_command from) st = record st { session = (mail from st.session).0 }
  step (rcpt_command to) st = record st { session = (rcpt cfg db to st.session).0 }
  step (content_command date content) st = record st {
    log = (data_command cfg stores signer ip helo date content st.session st.log).0;
  }
  step reset_command st = record st { session = reset st.session }

  unfoldable pub run : List Command → State → State
  unfolding step
  run [] st = st
  run (c ∷ cs) st = run cs (step c st)
