-- ===== src/Mailserver.antt =====
-- cmd/mailserver/main.go: how the program puts its parts together, and its commands on users. Flags,
-- listeners, logging and the printing of messages are left out; an exit is an answer. The Maildirs'
-- base directory is a path that filepath.Join has cleaned.
pub mod Wiring
pub mod Users
mod Tests
use mailroom.Prelude.{
  Bool, List, Option, Text, [], codes, if◌then◌else◌, is_nil, keep, map, nat_eq, none, not, some,
  text_eq, ℕ, ◌*◌, ◌++◌, ◌^◌, ◌&&◌, ◌||◌, ◌∷◌, decimal, true, false,
}
use mailroom.Address.{split}
use mailroom.Config.{Config, AcmeConfig}
use mailroom.Imap.Disk.Paths.{under}
use mailroom.Imap.Provision.{Place, provision_mailboxes}
use mailroom.Mailsend.{is_local_domain}
use mailroom.Mailsend
use mailroom.Maildir.Paths.{FilePath, folder_path, user_root}
use mailroom.Queue.{Item, Settings}
use mailroom.Queue.Relay.{SmartHostSetting, disabled, enabled}
use mailroom.Ratelimit.{Limiter, new}
use mailroom.Store.{Db, Error, User, err, ok}
use mailroom.Store.Settings.{get_relay_settings}
use mailroom.Store.Users.{Bcrypt, create_user, delete_user, ensure_domain, get_user_by_email}

-- time.Minute in nanoseconds
abbrev pub minute : ℕ
minute = 60 * 10 ^ 9

-- What Mailsend reads of the settings.
abbrev pub mail_config : FilePath → Config → Mailsend.Config
mail_config base c = record { domains = c.domains; hostname = c.hostname; maildir_path = base }

-- The arguments of queue.New, with the callback set.
unfoldable pub queue_settings : Config → Settings
queue_settings c = record {
  retry_intervals = map (λ m. m * minute) c.queue.retry_interval_minutes;
  max_retries = c.queue.max_retries;
  bounces = true;
}

-- newLimiter
unfoldable pub new_limiter : Config → Limiter
unfolding new
new_limiter c =
    let limit = c.security.auth_rate_limit in
    new limit.max_attempts (limit.window_minutes * minute) (limit.ban_minutes * minute)

-- mailQueue.SmartHost
unfoldable pub smart_host : Db → SmartHostSetting
unfolding get_relay_settings
smart_host db =
    let rs = get_relay_settings db in
    if not rs.enabled
    then disabled
    else enabled
        (record { host = rs.host; port = rs.port; username = rs.username; password = rs.password })

abbrev crlf : Text
crlf = 13 ∷ 10 ∷ []

-- The text of bounce; `date` is the clock in the form of RFC 1123.
unfoldable pub bounce_text : Config → Text → Item → Text → Text → Text
unfolding decimal
bounce_text c date item original reason =
    codes "From: Mail Delivery System <mailer-daemon@"
    ++ c.hostname
    ++ codes ">"
    ++ crlf
    ++ codes "To: "
    ++ item.from
    ++ crlf
    ++ codes "Subject: Undelivered Mail Returned to Sender"
    ++ crlf
    ++ codes "Date: "
    ++ date
    ++ crlf
    ++ codes "Content-Type: text/plain; charset=utf-8"
    ++ crlf
    ++ crlf
    ++ codes "The following message could not be delivered to "
    ++ item.to
    ++ codes " after "
    ++ decimal item.attempts
    ++ codes " attempt(s):"
    ++ crlf
    ++ crlf
    ++ reason
    ++ crlf
    ++ crlf
    ++ codes "--- Original message follows ---"
    ++ crlf
    ++ crlf
    ++ original

-- bounce: the folder and the text that are delivered, if any.
unfoldable pub bounce : FilePath → Config → Text → Item → Text → Text → Option (FilePath × Text)
unfolding split is_local_domain user_root folder_path bounce_text
bounce base c date item original reason = elim (split item.from) [
  | none ↦ none
  | some (local_part, domain) ↦
      if not (is_local_domain (mail_config base c) domain)
      then none
      else some (
        folder_path (user_root base domain local_part) (codes "INBOX"),
        bounce_text c date item original reason,
      )
]

-- Where setupTLS takes its certificate from.
pub data CertSource : Type 0 where
  mounted : Text → Text → CertSource
  acme : AcmeConfig → List Text → CertSource
  self_signed : CertSource

unfoldable pub setup_tls : Config → CertSource
setup_tls c =
    if not (is_nil c.tls.cert_file) && not (is_nil c.tls.key_file)
    then mounted c.tls.cert_file c.tls.key_file
    else if c.tls.acme.enabled
    then acme c.tls.acme c.domains
    else self_signed

-- The domains of the settings, at the start of cmdServe.
unfoldable pub ensure_domains : List Text → Db → Db
unfolding ensure_domain
ensure_domains [] db = db
ensure_domains (d ∷ ds) db = ensure_domains ds (ensure_domain d db).0

-- How a command ends.
pub data Ending : Type 0 where
  created : User → Ending
  deleted : Text → Ending
  no_bootstrap missing_flags invalid_address foreign_domain no_folders : Ending
  refused : Error → Ending
  left_maildir : FilePath → Ending

module _ (b : Bcrypt) (broken : FilePath → Bool) (now : ℕ) (base : FilePath) where
  -- The folders of a created user.
  unfoldable pub with_folders : User → Place × Bool → Place × Ending
  with_folders u (s, true) = (s, created u)
  with_folders u (s, false) = (s, no_folders)

  -- CreateUser and then ProvisionMailboxes.
  unfoldable pub add_user : Text → Text → Text → Bool → Place → Place × Ending
  unfolding create_user provision_mailboxes with_folders
  add_user domain local_part password is_admin (db, dirs) =
      let (db1, answer) = create_user b domain local_part password is_admin db in
      elim answer [
        | err e ↦ ((db1, dirs), refused e)
        | ok u ↦ with_folders u (provision_mailboxes broken now base u (db1, dirs))
      ]

  -- The bootstrap of the admin in cmdServe.
  unfoldable pub bootstrap : Config → Place → Place × Ending
  unfolding get_user_by_email split add_user
  bootstrap c (db, dirs) =
      let absent : Bool = elim (get_user_by_email db c.admin.email) [
        | ok _ ↦ false
        | err _ ↦ true
      ] in
      if is_nil c.admin.email || is_nil c.admin.password || not absent
      then ((db, dirs), no_bootstrap)
      else elim (split c.admin.email) [
        | none ↦ ((db, dirs), invalid_address)
        | some (local_part, domain) ↦ add_user domain local_part c.admin.password true (db, dirs)
      ]

  -- cmdUserCreate
  unfoldable pub user_create : Config → Text → Text → Bool → Place → Place × Ending
  unfolding split is_local_domain add_user
  user_create c email password is_admin s =
      if is_nil email || is_nil password then (s, missing_flags) else elim (split email) [
        | none ↦ (s, invalid_address)
        | some (local_part, domain) ↦
            if not (is_local_domain (mail_config base c) domain)
            then (s, foreign_domain)
            else add_user domain local_part password is_admin s
      ]

-- cmdUserDelete; `stuck` says whether the Maildir cannot be removed, after the user is.
unfoldable pub user_delete : Bool → FilePath → Text → Place → Place × Ending
unfolding get_user_by_email delete_user split user_root keep under
user_delete stuck base email (db, dirs) =
    if is_nil email then ((db, dirs), missing_flags) else elim (get_user_by_email db email) [
      | err e ↦ ((db, dirs), refused e)
      | ok u ↦
          let root : FilePath = elim (split u.email) [
            | none ↦ user_root base [] []
            | some (local_part, domain) ↦ user_root base domain local_part
          ] in
          let db1 = delete_user u.id db in
          if stuck
          then ((db1, dirs), left_maildir root)
          else ((db1, keep (λ d. not (under root d)) dirs), deleted u.email)
    ]
