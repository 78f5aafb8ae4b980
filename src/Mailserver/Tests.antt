-- ===== src/Mailserver/Tests.antt =====
-- Runs of cmd/mailserver/main.go: a file of settings, a queued message, a created user.
use mailroom.Prelude.{
  any, [], arith, codes, equal_fold, false, find_first, lookup, nat_eq, none, refl, some,
  text_beq_iff, text_eq, to_lower, true, ◌==◌, ◌∷◌, ◌≡◌,
}
use mailroom.Address.{last_index_byte, split}
use mailroom.Config.{Config, Env, apply_defaults, apply_env_overrides, load, validate}
use mailroom.Imap.Provision.{Place, provision_mailboxes}
use mailroom.Mailsend.{is_local_domain}
use mailroom.Mailserver.{queue_settings, user_create, add_user, with_folders}
use mailroom.Mailserver.Users.{IsSetUp, user_create-IsSetUp}
use mailroom.Mailserver.Wiring.{enqueued-expires}
use mailroom.Maildir.Paths.{FilePath}
use mailroom.Queue.{Spool, World, enqueue, run}
use mailroom.Queue.Attempt.{Ends}
use mailroom.Queue.Turn.{next_view}
use mailroom.Store.{User, empty_db}
use mailroom.Store.Users.{Bcrypt, IsBcrypt, create_user, ensure_domain, find_domain}

abbrev settings_file : Config
settings_file = record {
  hostname = codes "mx.a.org";
  domains = codes "a.org" ∷ [];
  listen = record { smtp = []; submission = []; imap = []; webmail = []; metrics = [] };
  tls = record {
    cert_file = [];
    key_file = [];
    acme = record {
      enabled = false;
      email = [];
      cache_dir = [];
      provider = [];
      options = [];
      staging = false;
    };
  };
  database = record { driver = []; dsn = [] };
  storage = record { maildir_path = []; queue_path = [] };
  dkim = record { selector = []; private_key_path = [] };
  queue = record { max_retries = 1; retry_interval_minutes = 5 ∷ [] };
  admin = record { email = []; password = [] };
  security = record {
    trusted_proxies = [];
    auth_rate_limit = record { max_attempts = 0; window_minutes = 0; ban_minutes = 0 };
  };
}

abbrev no_env : Env
no_env = λ name. none

abbrev settings : Config
settings = apply_defaults (apply_env_overrides no_env settings_file)

abbrev empty_spool : Spool
empty_spool = record { items = []; bodies = [] }

-- A network that takes every message.
abbrev fine_day : World
fine_day = record { now = 9; finished = λ item. 9; deliver = λ item content. none }

enqueued-expires_example :
    Ends
      (run
        (queue_settings settings)
        (fine_day ∷ fine_day ∷ [])
        (enqueue
          (some (codes "7"))
          5
          (codes "a@a.org")
          (codes "b@b.org")
          (codes "hi")
          empty_spool).0)
      (λ t _. (lookup (codes "7") t.items ≡ none) × (lookup (codes "7") t.bodies ≡ none))
unfolding load validate apply_env_overrides apply_defaults next_view lookup
enqueued-expires_example =
    enqueued-expires (some settings_file) no_env settings (fine_day ∷ fine_day ∷ []) empty_spool
      (codes "7") (codes "a@a.org") (codes "b@b.org") (codes "hi") 5 refl (λ id item e. cc e) tt
      (omega arith, (tt, tt)) (omega arith)

-- A stand-in for bcrypt.
abbrev marked : Bcrypt
marked = record { hash = λ p. some (b'$' ∷ p); matches = λ h p. h == b'$' ∷ p }

marked-IsBcrypt : IsBcrypt marked
marked-IsBcrypt = record { hash_matches = λ p h e. ground (arith, e, text_beq_iff h (b'$' ∷ p)) }

abbrev base : FilePath
base = record { rooted = true; segments = codes "m" ∷ [] }

abbrev after_create : Place
after_create =
    (user_create marked (λ p. false) 3 base settings (codes "Al@a.org") (codes "pw") false
      (empty_db, [])).0

abbrev al : User
al = record {
  id = 1;
  domain_id = 1;
  local_part = codes "al";
  email = codes "al@a.org";
  password_hash = codes "$pw";
  is_admin = false;
}

user_create-IsSetUp_example :
    IsSetUp marked (λ p. false) 3 base (codes "Al@a.org") (codes "pw") al after_create
unfolding user_create add_user with_folders create_user ensure_domain find_domain find_first
    to_lower any split last_index_byte is_local_domain equal_fold provision_mailboxes apply_defaults
    apply_env_overrides
user_create-IsSetUp_example =
    user_create-IsSetUp marked (λ p. false) 3 base settings (codes "Al@a.org") (codes "pw") false
      (empty_db, []) after_create al marked-IsBcrypt refl
