-- ===== src/Config.antt =====
-- internal/config/config.go: the settings. Reading the file and its YAML are an argument, and so are
-- the environment's variables; numbers are not negative.
pub mod Loading
mod Tests
use mailroom.Prelude.{
  Bool, List, Option, Text, [], any, codes, false, if◌then◌else◌, inl, inr, is_nil, keep, map,
  nat_eq, none, not, some, split_at_byte, suc, text_eq, trim_space, true, zero, ℕ, ◌&&◌, ◌==◌, ◌∷◌,
  ◌⊎◌,
}

pub record ListenConfig : Type 0 where
  pub smtp : Text
  pub submission : Text
  pub imap : Text
  pub webmail : Text
  pub metrics : Text

pub record AcmeConfig : Type 0 where
  pub enabled : Bool
  pub email : Text
  pub cache_dir : Text
  pub provider : Text
  pub options : List (Text × Text)
  pub staging : Bool

pub record TlsConfig : Type 0 where
  pub cert_file : Text
  pub key_file : Text
  pub acme : AcmeConfig

pub record DatabaseConfig : Type 0 where
  pub driver : Text
  pub dsn : Text

pub record StorageConfig : Type 0 where
  pub maildir_path : Text
  pub queue_path : Text

pub record DkimConfig : Type 0 where
  pub selector : Text
  pub private_key_path : Text

pub record QueueConfig : Type 0 where
  pub max_retries : ℕ
  pub retry_interval_minutes : List ℕ

pub record AdminConfig : Type 0 where
  pub email : Text
  pub password : Text

pub record RateLimitConfig : Type 0 where
  pub max_attempts : ℕ
  pub window_minutes : ℕ
  pub ban_minutes : ℕ

pub record SecurityConfig : Type 0 where
  pub trusted_proxies : List Text
  pub auth_rate_limit : RateLimitConfig

pub record Config : Type 0 where
  pub hostname : Text
  pub domains : List Text
  pub listen : ListenConfig
  pub tls : TlsConfig
  pub database : DatabaseConfig
  pub storage : StorageConfig
  pub dkim : DkimConfig
  pub queue : QueueConfig
  pub admin : AdminConfig
  pub security : SecurityConfig

abbrev pub Env : Type 0
Env = Text → Option Text

-- splitAndTrim
unfoldable pub split_and_trim : Text → List Text
unfolding split_at_byte keep trim_space
split_and_trim s = keep (λ p. not (is_nil p)) (map trim_space (split_at_byte b',' s))

unfoldable pub or_kept : Option Text → Text → Text
or_kept none old = old
or_kept (some v) old = v

unfoldable pub or_kept_list : Option Text → List Text → List Text
unfolding split_and_trim
or_kept_list none old = old
or_kept_list (some v) old = split_and_trim v

abbrev true_words : List Text
true_words = codes "1" ∷ codes "t" ∷ codes "T" ∷ codes "true" ∷ codes "TRUE" ∷ codes "True" ∷ []

abbrev false_words : List Text
false_words = codes "0" ∷ codes "f" ∷ codes "F" ∷ codes "false" ∷ codes "FALSE" ∷ codes "False" ∷ []

-- strconv.ParseBool; another word keeps the setting.
unfoldable pub or_kept_bool : Option Text → Bool → Bool
unfolding any
or_kept_bool none old = old
or_kept_bool (some v) old =
    if any (λ w. w == v) true_words
    then true
    else if any (λ w. w == v) false_words
    then false
    else old

unfoldable pub apply_env_overrides : Env → Config → Config
unfolding or_kept or_kept_list or_kept_bool
apply_env_overrides env c = record c {
  hostname = or_kept (env (codes "MAILSERVER_HOSTNAME")) c.hostname;
  domains = or_kept_list (env (codes "MAILSERVER_DOMAINS")) c.domains;
  database = record {
    driver = or_kept (env (codes "MAILSERVER_DATABASE_DRIVER")) c.database.driver;
    dsn = or_kept (env (codes "MAILSERVER_DATABASE_DSN")) c.database.dsn;
  };
  admin = record {
    email = or_kept (env (codes "MAILSERVER_ADMIN_EMAIL")) c.admin.email;
    password = or_kept (env (codes "MAILSERVER_ADMIN_PASSWORD")) c.admin.password;
  };
  security = record c.security {
    trusted_proxies =
        or_kept_list (env (codes "MAILSERVER_TRUSTED_PROXIES")) c.security.trusted_proxies;
  };
  tls = record {
    cert_file = or_kept (env (codes "MAILSERVER_TLS_CERT_FILE")) c.tls.cert_file;
    key_file = or_kept (env (codes "MAILSERVER_TLS_KEY_FILE")) c.tls.key_file;
    acme = record c.tls.acme {
      enabled = or_kept_bool (env (codes "MAILSERVER_ACME_ENABLED")) c.tls.acme.enabled;
      email = or_kept (env (codes "MAILSERVER_ACME_EMAIL")) c.tls.acme.email;
      provider = or_kept (env (codes "MAILSERVER_ACME_PROVIDER")) c.tls.acme.provider;
      staging = or_kept_bool (env (codes "MAILSERVER_ACME_STAGING")) c.tls.acme.staging;
    };
  };
}

unfoldable pub or_default : Text → Text → Text
or_default [] default = default
or_default (c ∷ s) default = c ∷ s

unfoldable pub or_number : ℕ → ℕ → ℕ
or_number zero default = default
or_number (suc n) default = suc n

unfoldable pub or_numbers : List ℕ → List ℕ → List ℕ
or_numbers [] default = default
or_numbers (n ∷ ns) default = n ∷ ns

-- The database's source, after its driver is set.
unfoldable pub default_dsn : Text → Text → Text
unfolding or_default
default_dsn driver dsn =
    if driver == codes "sqlite" then or_default dsn (codes "/data/mailserver.db") else dsn

unfoldable pub apply_defaults : Config → Config
unfolding or_default or_number or_numbers default_dsn
apply_defaults c =
    let driver = or_default c.database.driver (codes "sqlite") in
    record c {
      listen = record {
        smtp = or_default c.listen.smtp (codes ":25");
        submission = or_default c.listen.submission (codes ":587");
        imap = or_default c.listen.imap (codes ":993");
        webmail = or_default c.listen.webmail (codes ":8080");
        metrics = or_default c.listen.metrics (codes "127.0.0.1:9090");
      };
      database = record { driver = driver; dsn = default_dsn driver c.database.dsn };
      storage = record {
        maildir_path = or_default c.storage.maildir_path (codes "/data/mail");
        queue_path = or_default c.storage.queue_path (codes "/data/queue");
      };
      dkim = record {
        selector = or_default c.dkim.selector (codes "default");
        private_key_path = or_default c.dkim.private_key_path (codes "/data/dkim/private.pem");
      };
      queue = record {
        max_retries = or_number c.queue.max_retries 8;
        retry_interval_minutes =
            or_numbers c.queue.retry_interval_minutes (1 ∷ 5 ∷ 15 ∷ 60 ∷ 240 ∷ 1440 ∷ []);
      };
      tls = record c.tls {
        acme = record c.tls.acme {
          cache_dir = or_default c.tls.acme.cache_dir (codes "/data/acme");
        };
      };
      security = record c.security {
        auth_rate_limit = record {
          max_attempts = or_number c.security.auth_rate_limit.max_attempts 5;
          window_minutes = or_number c.security.auth_rate_limit.window_minutes 15;
          ban_minutes = or_number c.security.auth_rate_limit.ban_minutes 15;
        };
      };
    }

pub data Problem : Type 0 where
  no_hostname no_domain unknown_driver no_dsn unreadable : Problem

unfoldable pub validate : Config → Option Problem
unfolding is_nil
validate c =
    if is_nil c.hostname
    then some no_hostname
    else if is_nil c.domains
    then some no_domain
    else if not (c.database.driver == codes "sqlite") && not (c.database.driver == codes "postgres")
    then some unknown_driver
    else if c.database.driver == codes "postgres" && is_nil c.database.dsn
    then some no_dsn
    else none

-- Load, of what the file holds; none where it cannot be read or parsed.
unfoldable pub load : Option Config → Env → Problem ⊎ Config
unfolding apply_env_overrides apply_defaults
load none env = inl unreadable
load (some file) env =
    let cfg = apply_defaults (apply_env_overrides env file) in
    elim (validate cfg) [ some problem ↦ inl problem | none ↦ inr cfg ]
