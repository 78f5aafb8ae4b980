-- ===== src/Tlsutil.antt =====
-- internal/tlsutil/tlsutil.go: the certificate of the submission and IMAP listeners where ACME does
-- not give one. Keys, serial numbers, X.509 and the parsing of an IP address are arguments. Times are
-- in nanoseconds; the warning that is logged is left out.

pub mod Hostname
use mailroom.Prelude.{
  Bool, List, Option, Text, [], if◌then◌else◌, inl, inr, is_nil, not, ℕ, none, some, true, ◌*◌, ◌+◌,
  ◌-◌, ◌^◌, ◌&&◌, ◌∷◌, ◌⊎◌,
}

-- time.Hour in nanoseconds
abbrev pub hour : ℕ
hour = 3600 * 10 ^ 9

pub data KeyUsage : Type 0 where
  digital_signature key_encipherment : KeyUsage

pub data ExtKeyUsage : Type 0 where
  server_auth : ExtKeyUsage

-- The fields of x509.Certificate that are set.
pub record Template (Ip : Type 0) : Type 0 where
  pub serial_number : ℕ
  pub common_name : Text
  pub not_before : ℕ
  pub not_after : ℕ
  pub key_usage : List KeyUsage
  pub ext_key_usage : List ExtKeyUsage
  pub basic_constraints_valid : Bool
  pub ip_addresses : List Ip
  pub dns_names : List Text

-- tls.Certificate
pub record Certificate (Key : Type 0) : Type 0 where
  pub certificate : List Text
  pub private_key : Key

pub data Version : Type 0 where
  tls12 : Version

-- tls.Config
pub record TlsConfig (Key : Type 0) : Type 0 where
  pub certificates : List (Certificate Key)
  pub min_version : Version

pub data LoadError : Type 0 where
  loading_key_pair generating_self_signed : LoadError

-- What the libraries answer: of randomness, of the files of a pair and of X.509.
pub record Crypto (Key Ip : Type 0) : Type 0 where
  pub parse_ip : Text → Option Ip
  pub generate_key : Option Key
  pub random_below : ℕ → Option ℕ
  pub create_certificate : Template Ip → Key → Option Text
  pub load_key_pair : Text → Text → Option (Certificate Key)

module _ {Key Ip : Type 0} (crypto : Crypto Key Ip) (now : ℕ) where
  -- The template, whose names are the IP address or the DNS name that the host name is.
  unfoldable pub template : Text → ℕ → Template Ip
  template hostname serial =
      let ip = crypto.parse_ip hostname in
      record {
        serial_number = serial;
        common_name = hostname;
        not_before = now - hour;
        not_after = now + 365 * 24 * hour;
        key_usage = digital_signature ∷ key_encipherment ∷ [];
        ext_key_usage = server_auth ∷ [];
        basic_constraints_valid = true;
        ip_addresses = elim ip [ none ↦ [] | some a ↦ a ∷ [] ];
        dns_names = elim ip [ none ↦ hostname ∷ [] | some _ ↦ [] ];
      }

  -- selfSigned
  unfoldable pub self_signed : Text → Option (Certificate Key)
  unfolding template
  self_signed hostname = elim crypto.generate_key [
    | none ↦ none
    | some key ↦ elim (crypto.random_below (2 ^ 128)) [
      | none ↦ none
      | some serial ↦ elim (crypto.create_certificate (template hostname serial) key) [
        | none ↦ none
        | some der ↦ some (record { certificate = der ∷ []; private_key = key })
      ]
    ]
  ]

  abbrev pub config_of : Certificate Key → TlsConfig Key
  config_of cert = record { certificates = cert ∷ []; min_version = tls12 }

  -- Load
  unfoldable pub load : Text → Text → Text → LoadError ⊎ TlsConfig Key
  unfolding self_signed
  load cert_file key_file hostname =
      if not (is_nil cert_file) && not (is_nil key_file)
      then elim (crypto.load_key_pair cert_file key_file) [
        | none ↦ inl loading_key_pair
        | some cert ↦ inr (config_of cert)
      ]
      else elim (self_signed hostname) [
        | none ↦ inl generating_self_signed
        | some cert ↦ inr (config_of cert)
      ]
