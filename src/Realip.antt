-- ===== src/Realip.antt =====
-- internal/realip/realip.go and proxyproto.go: the client's address of a web request, and of a
-- connection behind a load balancer. net.ParseIP, net.ParseCIDR and
-- the containment of an address in a range are parameters, for which `parse` is ParseIP, and
-- `split_host_port` is net.SplitHostPort's host.
mod Trust
use mailroom.Prelude.{
  Bool, List, Option, Text, [], any, codes, contains, if◌then◌else◌, inl, inr, nat_eq, none, not,
  reverse, some, split_at_byte, text_eq, trim_space, ◌++◌, ◌/◌, ◌==◌, ◌||◌, ◌∷◌, ◌⊎◌,
}

-- normalizeCIDR
unfoldable pub normalize_cidr : Text → Text
unfolding contains
normalize_cidr s =
    if contains s (codes "/")
    then s
    else if contains s (codes ":")
    then s ++ codes "/128"
    else s ++ codes "/32"

module _ {Net : Type 0} where
  -- Parse; an error names the first entry that is no range.
  unfoldable pub parse_entries : (Text → Option Net) → List Text → Text ⊎ List Net
  unfolding normalize_cidr
  parse_entries parse_cidr [] = inr []
  parse_entries parse_cidr (e ∷ entries) =
      let rest = parse_entries parse_cidr entries in
      elim (parse_cidr (normalize_cidr e)) [
        | none ↦ inl e
        | some net ↦ elim rest [ inl bad ↦ inl bad | inr nets ↦ inr (net ∷ nets) ]
      ]

  -- TrustedProxies.Contains
  unfoldable pub trusts : {Ip : Type 0} → (Net → Ip → Bool) → List Net → Ip → Bool
  unfolding any
  trusts within nets ip = any (λ n. within n ip) nets

module _ {Ip : Type 0} (parse : Text → Option Ip) (trusted : Ip → Bool) where
  -- The loop over the hops, the last one first.
  unfoldable pub first_untrusted : Text → List Text → Text
  unfolding trim_space
  first_untrusted peer_host [] = peer_host
  first_untrusted peer_host (part ∷ parts) =
      let rest = first_untrusted peer_host parts in
      elim (parse (trim_space part)) [
        | none ↦ rest
        | some ip ↦ if trusted ip then rest else trim_space part
      ]

  -- FromHTTP, of RemoteAddr and the X-Forwarded-For header.
  unfoldable pub from_http : (Text → Option Text) → Text → Text → Text
  unfolding first_untrusted split_at_byte
  from_http split_host_port remote_addr xff =
      let peer_host : Text = elim (split_host_port remote_addr) [
        | none ↦ remote_addr
        | some host ↦ host
      ] in
      elim (parse peer_host) [
        | none ↦ peer_host
        | some ip ↦
            if not (trusted ip) || xff == []
            then peer_host
            else first_untrusted peer_host (reverse (split_at_byte b',' xff))
      ]

-- The listener as it was, or the library's, which asks the policy about each connection.
pub data Listener (Ln Policy : Type 0) : Type 0 where
  direct : Ln → Listener Ln Policy
  proxied : Ln → Policy → Listener Ln Policy

-- WrapProxyProto, for which `policy_from_ranges` is proxyproto.PolicyFromRanges with USE within the
-- ranges and SKIP elsewhere; none is its error.
unfoldable pub wrap_proxy_proto :
    {Ln Policy : Type 0}
    → (List Text → Option Policy)
    → Ln
    → List Text
    → Option (Listener Ln Policy)
wrap_proxy_proto policy_from_ranges ln [] = some (direct ln)
wrap_proxy_proto policy_from_ranges ln (e ∷ ranges) = elim (policy_from_ranges (e ∷ ranges)) [
  | none ↦ none
  | some policy ↦ some (proxied ln policy)
]
