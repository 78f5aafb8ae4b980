-- ===== src/Queue/Relay.antt =====
-- internal/queue/relay.go: one delivery. The SMTP client, DNS and the smart host's settings are
-- parameters: what each call of theirs answers.
mod Order
mod Credentials
mod Tests
use mailroom.Address.{split}
use mailroom.Prelude.{
  Bool, List, Option, Text, [], any, codes, decimal, false, if◌then◌else◌, map, nat_eq, none, not,
  some, text_eq, ℕ, ◌++◌, ◌==◌, ◌∷◌,
}

-- An error. An SMTP reply knows whether it is temporary; anything else carries its text alone.
pub data Failure : Type 0 where
  smtp_error : Bool → Text → Failure
  other_error : Text → Failure

pub message : Failure → Text
message (smtp_error temporary text) = text
message (other_error text) = text

unfoldable pub is_permanent : Failure → Bool
is_permanent (smtp_error temporary text) = not temporary
is_permanent (other_error text) = false

-- The calls of the SMTP client, in the order in which they are made.
pub data Call : Type 0 where
  dial_tls dial_plain hello auth mail rcpt start_content write close quit : Call

-- How a server takes each call: `none` is success.
abbrev pub Server : Type 0
Server = Call → Option Failure

-- The context that some errors are wrapped in keeps an SMTP reply an SMTP reply.
unfoldable pub wrap : Text → Failure → Failure
wrap context (smtp_error temporary text) = smtp_error temporary (context ++ text)
wrap context (other_error text) = other_error (context ++ text)

-- The calls that were made, and the first failure.
pub record Run : Type 0 where
  pub calls : List Call
  pub failure : Option Failure

-- Calls made one after another until one fails; each has the context of its error.
unfoldable pub steps : Server → List (Call × Text) → Run
unfolding wrap
steps server [] = record { calls = []; failure = none }
steps server ((c, context) ∷ rest) =
    let after = steps server rest in
    elim (server c) [
      | some e ↦ record { calls = c ∷ []; failure = some (wrap context e) }
      | none ↦ record { calls = c ∷ after.calls; failure = after.failure }
    ]

abbrev pub transfer : List (Call × Text)
transfer =
    (mail, [])
    ∷ (rcpt, [])
    ∷ (start_content, [])
    ∷ (write, codes "writing message data: ")
    ∷ (close, [])
    ∷ (quit, [])
    ∷ []

abbrev pub smart_host_steps : Text → List (Call × Text)
smart_host_steps addr =
    (dial_tls, codes "connecting to smart host " ++ (addr ++ codes ": "))
    ∷ (hello, [])
    ∷ (auth, codes "authenticating to smart host: ")
    ∷ transfer

-- trySmartHostWithTLS: TLS, then the login, then the message.
unfoldable pub try_smart_host : Server → Text → Run
unfolding steps
try_smart_host server addr = steps server (smart_host_steps addr)

-- tryAddr: TLS where it works, and a plain connection where it does not.
unfoldable pub try_addr : Server → Text → Run
unfolding steps
try_addr server addr = elim (server dial_tls) [
  | none ↦ let r = steps server ((hello, []) ∷ transfer) in record r { calls = dial_tls ∷ r.calls }
  | some _ ↦
      let r =
        steps server
          ((dial_plain, codes "connecting to " ++ (addr ++ codes ": ")) ∷ (hello, []) ∷ transfer) in
      record r { calls = dial_tls ∷ r.calls }
]

pub record SmartHost : Type 0 where
  pub host : Text
  pub port : ℕ
  pub username : Text
  pub password : Text

-- portOrDefault; a port is not negative here.
unfoldable pub port_or_default : ℕ → Text
unfolding decimal
port_or_default port = if port == 0 then codes "587" else decimal port

-- net.JoinHostPort puts a host that has a colon in brackets.
unfoldable pub join_host_port : Text → Text → Text
unfolding any
join_host_port host port =
    if any (λ c. c == b':') host then b'[' ∷ (host ++ (codes "]:" ++ port)) else host ++ b':' ∷ port

-- What a delivery meets: `lookup_mx` is `none` where net.LookupMX fails, with its error's text.
pub record Network : Type 0 where
  pub lookup_mx : Text → Option (List Text)
  pub mx_error : Text → Text
  pub has_address : Text → Bool
  pub server : Text → Server

-- strings.TrimSuffix(host, ".")
trim_dot : Text → Text
trim_dot [] = []
trim_dot (c ∷ []) = if c == b'.' then [] else c ∷ []
trim_dot (c ∷ d ∷ s) = c ∷ trim_dot (d ∷ s)

pub data Hosts : Type 0 where
  found : List Text → Hosts
  missing : Text → Hosts

no_exchanger : Network → Text → Option (List Text) → Hosts
no_exchanger n domain none =
    if n.has_address domain then found (domain ∷ []) else missing (n.mx_error domain)
no_exchanger n domain (some _) =
    if n.has_address domain
    then found (domain ∷ [])
    else missing (codes "domain has no MX or address records")

-- mxHosts
unfoldable pub mx_hosts : Network → Text → Hosts
unfolding no_exchanger trim_dot
mx_hosts n domain = elim (n.lookup_mx domain) [
  | some (mx ∷ mxs) ↦ found (map trim_dot (mx ∷ mxs))
  | other ↦ no_exchanger n domain other
]

-- tryHost
unfoldable pub try_host : Network → Text → Option Failure
unfolding try_addr join_host_port
try_host n host = (try_addr (n.server host) (join_host_port host (codes "25"))).failure

-- The loop of `deliver` over the hosts; `last` is `lastErr`.
unfoldable pub try_hosts : (Text → Option Failure) → Option Failure → List Text → Option Failure
unfolding is_permanent
try_hosts try last [] = last
try_hosts try last (host ∷ hosts) =
    let after = λ (e : Failure). try_hosts try (some e) hosts in
    elim (try host) [ none ↦ none | some e ↦ if is_permanent e then some e else after e ]

-- What `q.SmartHost` answers; `unset` is a nil function.
pub data SmartHostSetting : Type 0 where
  unset disabled : SmartHostSetting
  broken : Text → SmartHostSetting
  enabled : SmartHost → SmartHostSetting

direct : Network → Text → Option Failure
unfolding mx_hosts try_hosts try_host
direct n to = elim (split to) [
  | none ↦ some (other_error (codes "invalid recipient address " ++ to))
  | some (local_part, domain) ↦ elim (mx_hosts n domain) [
    | missing reason ↦
        some (other_error (codes "no mail exchanger for " ++ (domain ++ (codes ": " ++ reason))))
    | found hosts ↦ try_hosts (try_host n) none hosts
  ]
]

-- deliver: `none` is success.
unfoldable pub deliver : SmartHostSetting → Network → Text → Option Failure
unfolding direct try_smart_host join_host_port port_or_default
deliver unset n to = direct n to
deliver disabled n to = direct n to
deliver (broken reason) n to = some (other_error (codes "loading smart host settings: " ++ reason))
deliver (enabled cfg) n to =
    (try_smart_host (n.server cfg.host)
      (join_host_port cfg.host (port_or_default cfg.port))).failure
