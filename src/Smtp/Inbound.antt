-- ===== src/Smtp/Inbound.antt =====
-- internal/smtpserver/inbound.go: port 25, for mail to local mailboxes. What the peer's connection
-- gives, the clock's text and the verdict of internal/inboundauth are arguments.
mod Pairing
mod Relaying
mod Tests
use mailroom.Prelude.{
  Bool, List, Option, Text, [], codes, if◌then◌else◌, is_nil, nat_eq, none, not, some, text_eq,
  to_lower, trim_space, ℕ, ◌++◌, ◌<◌, ◌==◌, ◌||◌, ◌∷◌,
}
use mailroom.Address.{split}
use mailroom.Store.{Db, User, err, ok}
use mailroom.Store.Users.{get_user_by_email}
use mailroom.Store.Settings.{get_forwarding}
use mailroom.Mailsend.{Config, Effect, Log, Outlet, delivered, folder_of, is_local_domain, queued}
use mailroom.Smtp.{Reply, accepted, refused, unreadable}

pub record Session : Type 0 where
  pub from : Text
  pub rcpts : List Text
  pub rcpt_users : List User

-- helo, the text of clientIP or "unknown", and the text of the time.
pub record Peer : Type 0 where
  pub helo : Text
  pub remote_host : Text
  pub date : Text

-- inboundauth.Result
pub record Verdict : Type 0 where
  pub should_quarantine : Bool
  pub authentication_results : Text

unfoldable pub mail : Text → Session → Session
mail from s = record { from = from; rcpts = []; rcpt_users = [] }

-- Reset
unfoldable pub reset : Session → Session
reset s = record s { from = []; rcpts = [] }

-- Rcpt
unfoldable pub rcpt : Config → Db → Text → Session → Session × Reply
unfolding to_lower trim_space
rcpt cfg db to s =
    let addr = to_lower (trim_space to) in
    elim (split addr) [
      | none ↦ (s, refused 501 (codes "Malformed recipient address"))
      | some (local_part, domain) ↦
          if is_local_domain cfg domain
          then (elim (get_user_by_email db addr) [
            | err _ ↦ (s, refused 550 (codes "No such user here"))
            | ok user ↦ (
              record s { rcpts = s.rcpts ++ addr ∷ []; rcpt_users = s.rcpt_users ++ user ∷ [] },
              accepted,
            )
          ])
          else (s, refused 550 (codes "Relay access denied"))
    ]

-- receivedHeader
unfoldable pub received_header : Config → Peer → Text → Text
received_header cfg peer rcpt =
    codes "Received: from "
    ++ (peer.helo
        ++ (codes " (["
            ++ (peer.remote_host
                ++ (codes "])\r\n\tby "
                    ++ (cfg.hostname
                        ++ (codes " (mailserver) with ESMTP\r\n\tfor <"
                            ++ (rcpt ++ (codes ">; " ++ (peer.date ++ codes "\r\n")))))))))

-- forward: one copy to the address of the mailbox's own rule. `has_queue` is a queue that is set.
unfoldable pub forward : Config → Db → Outlet → Bool → Text → ℕ → Text → Log → Log
unfolding folder_of
forward cfg db stores has_queue rcpt user_id full log =
    let fw = get_forwarding user_id db in
    let keep_if = λ (e : Effect). if stores log e then log ++ e ∷ [] else log in
    if not fw.enabled || fw.forward_to == [] then log else elim (split fw.forward_to) [
      | none ↦ log
      | some (local_part, domain) ↦
          if is_local_domain cfg domain
          then (elim (get_user_by_email db fw.forward_to) [
            | err _ ↦ log
            | ok _ ↦ keep_if (delivered (folder_of cfg domain local_part (codes "INBOX")) full)
          ])
          else if has_queue
          then keep_if (queued rcpt fw.forward_to full)
          else log
    ]

-- address.Split with the third result ignored: two empty texts for a malformed address.
unfoldable pub parts : Text → Text × Text
parts addr = elim (split addr) [ none ↦ ([], []) | some p ↦ p ]

unfoldable pub full_message : Config → Peer → Verdict → Text → Text → Text
unfolding received_header
full_message cfg peer verdict rcpt body =
    received_header cfg peer rcpt
    ++ (codes "Authentication-Results: "
        ++ (verdict.authentication_results ++ (codes "\r\n" ++ body)))

abbrev pub verdict_folder : Verdict → Text
verdict_folder verdict = if verdict.should_quarantine then codes "Junk" else codes "INBOX"

unfoldable pub own_copy : Config → Peer → Verdict → Text → Text → Effect
unfolding parts folder_of full_message
own_copy cfg peer verdict body rcpt =
    delivered (folder_of cfg (parts rcpt).1 (parts rcpt).0 (verdict_folder verdict))
      (full_message cfg peer verdict rcpt body)

-- The index `s.rcptUsers[i]` may be past the end, which ends the process.
pub data Outcome : Type 0 where
  panic : Outcome
  finished : Log → Reply → Outcome

module _ (cfg : Config) (db : Db) (stores : Outlet) (has_queue : Bool) (peer : Peer) where
  -- The loop of Data over the recipients.
  unfoldable pub deliveries : Verdict → Text → List Text → List User → Log → Outcome
  unfolding own_copy forward
  deliveries verdict body [] users log = finished log accepted
  deliveries verdict body (r ∷ rs) users log =
      let copy = own_copy cfg peer verdict body r in
      if stores log copy
      then (elim users [
        | [] ↦ panic
        | u ∷ (us → _) ↦ deliveries verdict body rs us (
            forward cfg db stores has_queue r u.id (full_message cfg peer verdict r body)
              (log ++ copy ∷ []))
      ])
      else finished log (refused 451 (codes "Temporary delivery failure, please retry"))

  -- Data; `content` is none where the message cannot be read.
  unfoldable pub data_command : (Text → Text → Verdict) → Option Text → Session → Log → Outcome
  unfolding deliveries
  data_command verify content s log =
      if is_nil s.rcpts
      then finished log (refused 554 (codes "No valid recipients"))
      else elim content [
        | none ↦ finished log unreadable
        | some body ↦ deliveries (verify s.from body) body s.rcpts s.rcpt_users log
      ]
