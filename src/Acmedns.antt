-- ===== src/Acmedns.antt =====
-- internal/acmedns/acmedns.go: the certificate that is issued over DNS. The ACME client, the DNS
-- provider, keys, certificates and the account's encoding are arguments. Times are in nanoseconds, and
-- the cache directory is its three files; what a write that fails leaves of a file is an argument.
-- Logging is left out, and so is the process environment, of which `env` says whether it takes the
-- provider's options.
pub mod Restart
mod Tests
use mailroom.Prelude.{
  Bool, List, Option, Text, codes, false, if◌then◌else◌, is_nil, ltb, nat_eq, none, not, some,
  text_eq, true, ℕ, ◌*◌, ◌+◌, ◌==◌, ◌^◌, ◌||◌,
}
use mailroom.Config.{AcmeConfig}

-- renewBefore
abbrev pub renew_before : ℕ
renew_before = 30 * 24 * 3600 * 10 ^ 9

pub record AcmeUser (Key Reg : Type 0) : Type 0 where
  pub email : Text
  pub reg : Option Reg
  pub key : Key

-- Certificates and the account's file, as the libraries read and write them. `not_after` is none where
-- the leaf is missing or cannot be parsed.
pub record Codec (Key Reg Cert : Type 0) : Type 0 where
  pub key_pair : Text → Text → Option Cert
  pub not_after : Cert → Option ℕ
  pub decode_account : Text → Option (AcmeUser Key Reg)
  pub encode_account : AcmeUser Key Reg → Option Text
  pub generate_key : Option Key

-- What the services answer, which writes fail, and what a failed write leaves of a file as it was and
-- of the text for it.
pub record Services (Key Reg : Type 0) : Type 0 where
  pub has_client : Bool
  pub has_provider : Bool
  pub register : AcmeUser Key Reg → Option Reg
  pub obtain : AcmeUser Key Reg → List Text → Option (Text × Text)
  pub writes_account : Bool
  pub writes_cert : Bool
  pub writes_key : Bool
  pub left : Option Text → Text → Option Text

pub record Cache : Type 0 where
  pub fullchain : Option Text
  pub privkey : Option Text
  pub account : Option Text

pub record Manager (Cert : Type 0) : Type 0 where
  pub cache : Cache
  pub cert : Option Cert

pub data Problem : Type 0 where
  no_email no_domains no_cache bad_option bad_account no_client no_provider unregistered : Problem
  unsaved not_obtained unwritten bad_pair : Problem

-- New; the cache directory is there or `cache` says that it cannot be made.
unfoldable pub new :
    {Cert : Type 0}
    → AcmeConfig
    → List Text
    → Option Cache
    → Bool
    → Option Problem × Option (Manager Cert)
new c domains cache env =
    if is_nil c.email
    then (some no_email, none)
    else if is_nil domains
    then (some no_domains, none)
    else elim cache [
      | none ↦ (some no_cache, none)
      | some files ↦
          if env
          then (none, some (record { cache = files; cert = none }))
          else (some bad_option, none)
    ]

module _ {Key Reg Cert : Type 0} (x : Codec Key Reg Cert) (c : AcmeConfig)
    (domains : List Text) where
  -- needsRenewal
  unfoldable pub needs_renewal : ℕ → Option Cert → Bool
  needs_renewal now none = true
  needs_renewal now (some cert) = elim (x.not_after cert) [
    | none ↦ true
    | some end ↦ ltb end (now + renew_before)
  ]

  -- loadOrRegisterAccount
  unfoldable pub load_account : Cache → Option (AcmeUser Key Reg)
  load_account files = elim files.account [
    | some buf ↦ x.decode_account buf
    | none ↦ elim x.generate_key [
      | none ↦ none
      | some key ↦ some (record { email = c.email; reg = none; key = key })
    ]
  ]

  -- dnsProvider
  unfoldable pub dns_provider : Services Key Reg → Bool
  dns_provider s =
      if is_nil c.provider || c.provider == codes "cloudflare" then s.has_provider else false

  pub data Account : Type 0 where
    no_account : Problem → Account
    account_ready : AcmeUser Key Reg → Account

  -- The registration of an account that has none, and its file.
  unfoldable pub registered : Services Key Reg → AcmeUser Key Reg → Cache → Cache × Account
  registered s user files = elim user.reg [
    | some _ ↦ (files, account_ready user)
    | none ↦ elim (s.register user) [
      | none ↦ (files, no_account unregistered)
      | some reg ↦
          let known : AcmeUser Key Reg = record user { reg = some reg } in
          elim (x.encode_account known) [
            | none ↦ (files, no_account unsaved)
            | some text ↦
                if s.writes_account
                then (record files { account = some text }, account_ready known)
                else (record files { account = s.left files.account text }, no_account unsaved)
          ]
    ]
  ]

  -- The rest of obtain, with the account.
  unfoldable pub issue :
      Services Key Reg → AcmeUser Key Reg → Manager Cert → Manager Cert × Option Problem
  issue s user m = elim (s.obtain user domains) [
    | none ↦ (m, some not_obtained)
    | some (chain, key) ↦
        if not s.writes_cert
        then (
          record m { cache = record m.cache { fullchain = s.left m.cache.fullchain chain } },
          some unwritten,
        )
        else if not s.writes_key
        then (
          record m {
            cache = record m.cache { fullchain = some chain; privkey = s.left m.cache.privkey key };
          },
          some unwritten,
        )
        else let files : Cache = record m.cache { fullchain = some chain; privkey = some key } in
          elim (x.key_pair chain key) [
            | none ↦ (record m { cache = files }, some bad_pair)
            | some cert ↦ (record { cache = files; cert = some cert }, none)
          ]
  ]

  abbrev pub after_account :
      Services Key Reg → Manager Cert → Cache × Account → Manager Cert × Option Problem
  after_account s m (files, no_account p) = (record m { cache = files }, some p)
  after_account s m (files, account_ready user) = issue s user (record m { cache = files })

  -- obtain
  unfoldable pub obtain : Services Key Reg → Manager Cert → Manager Cert × Option Problem
  unfolding load_account dns_provider registered issue
  obtain s m = elim (load_account m.cache) [
    | none ↦ (m, some bad_account)
    | some user ↦
        if not s.has_client
        then (m, some no_client)
        else if not (dns_provider s)
        then (m, some no_provider)
        else after_account s m (registered s user m.cache)
  ]

  -- tls.LoadX509KeyPair of the two files
  unfoldable pub cached_pair : Cache → Option Cert
  cached_pair files = elim files.fullchain [
    | none ↦ none
    | some chain ↦ elim files.privkey [ none ↦ none | some key ↦ x.key_pair chain key ]
  ]

  -- ensureCertificate, which is Init
  unfoldable pub ensure_certificate :
      Services Key Reg → ℕ → Manager Cert → Manager Cert × Option Problem
  unfolding cached_pair needs_renewal obtain
  ensure_certificate s now m = elim (cached_pair m.cache) [
    | none ↦ obtain s m
    | some cert ↦
        let m1 : Manager Cert = record m { cert = some cert } in
        if needs_renewal now (some cert) then obtain s m1 else (m1, none)
  ]

  -- One tick of Run
  unfoldable pub tick : Services Key Reg → ℕ → Manager Cert → Manager Cert
  unfolding needs_renewal obtain
  tick s now m = if needs_renewal now m.cert then (obtain s m).0 else m
