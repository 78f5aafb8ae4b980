-- ===== src/Realip/Trust.antt =====
-- internal/realip/realip.go: whose word is believed.
use mailroom.Prelude.{
  All, Bool, List, Option, Text, [], false, inl, inr, nat_eq, none, refl, some, text_eq, trim_space,
  true, ◌++◌, ◌∷◌, ◌≡◌, ◌⊎◌,
}
use mailroom.Realip.{first_untrusted, from_http}

module _ {Ip : Type 0} (parse : Text → Option Ip) (trusted : Ip → Bool) where
  -- The text is no address, or that of a trusted proxy.
  abbrev pub Skipped : Text → Type 0
  Skipped part =
      (parse (trim_space part) ≡ none)
      ⊎ ((ip : Ip) × (parse (trim_space part) ≡ some ip) × (trusted ip ≡ true))

  -- Where the last hops are no addresses or trusted proxies and the hop before them is an address that
  -- is not trusted, that address is answered, whatever the hops before it claim.
  nearest_untrusted :
      (peer_host part : Text) (near far : List Text) (ip : Ip)
      → All Skipped near
      → parse (trim_space part) ≡ some ip
      → trusted ip ≡ false
      → first_untrusted parse trusted peer_host (near ++ part ∷ far) ≡ trim_space part
  unfolding first_untrusted
  nearest_untrusted peer_host part [] far ip skipped parsed out = rw (parsed, out) refl
  nearest_untrusted peer_host part (n ∷ near) far ip (inl bad, skipped) parsed out =
      rw (first_untrusted, bad) (nearest_untrusted peer_host part near far ip skipped parsed out)
  nearest_untrusted peer_host part (n ∷ near) far ip (inr (proxy, known, trust), skipped) parsed
        out =
      rw (first_untrusted, known, trust)
        (nearest_untrusted peer_host part near far ip skipped parsed out)

  -- Where the peer's address is that of no trusted proxy, the answer is the same for every header.
  header_ignored :
      (split_host_port : Text → Option Text) (remote_addr host xff other : Text) (ip : Ip)
      → split_host_port remote_addr ≡ some host
      → parse host ≡ some ip
      → trusted ip ≡ false
      → from_http parse trusted split_host_port remote_addr xff
        ≡ from_http parse trusted split_host_port remote_addr other
  unfolding from_http
  header_ignored split_host_port remote_addr host xff other ip s p out =
      rw (from_http, s, p, out) refl
