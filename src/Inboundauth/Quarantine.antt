-- ===== src/Inboundauth/Quarantine.antt =====
-- internal/inboundauth/verify.go: when a message is to be quarantined.
use mailroom.Prelude.{
  All, Bool, Bool-cases, List, Option, Text, [], any, arith, false, inl, inr, nat_eq, none, refl,
  some, text_beq_iff, text_eq, true, ◌&&◌, ◌==◌, ◌||◌, ◌∷◌, ◌≡◌, ◌⊎◌,
}
use mailroom.Inboundauth.{
  Discovery, DkimResult, Dmarc, DmarcRecord, Value, aligned, check_dmarc, discovered, dkim_aligned,
  is_pass, judge, lookup_dmarc_record, no_record, permanent, temporary,
}

-- Nothing speaks for the sender: neither SPF nor any signature passed with alignment.
abbrev pub Unproven : Dmarc → Text → Value → Text → List DkimResult → DmarcRecord → Type 0
Unproven d from_domain spf spf_domain dkim r =
    ((is_pass spf && aligned d from_domain spf_domain r.spf_alignment) ≡ false)
    × All (λ x. (is_pass x.value && aligned d from_domain x.domain r.dkim_alignment) ≡ false) dkim

not_any :
    (p : DkimResult → Bool) (results : List DkimResult)
    → any p results ≡ false
    → All (λ x. p x ≡ false) results
unfolding any
not_any p [] h = tt
not_any p (x ∷ results) h = (ground (arith, h), not_any p results (ground (arith, h)))

module _ (d : Dmarc) (from_domain : Text) (spf : Value) (spf_domain : Text)
    (dkim : List DkimResult) where
  judge-quarantine :
      (o : Option Discovery)
      → (judge d from_domain spf spf_domain dkim o).1 ≡ true
      → ((at : Text) × (r : DmarcRecord) × (policy : Text) × (o ≡ some (discovered at r policy))
          × ((policy ≡ d.quarantine) ⊎ (policy ≡ d.reject))
          × Unproven d from_domain spf spf_domain dkim r)
  unfolding judge dkim_aligned
  judge-quarantine none h = absurd (cc (h))
  judge-quarantine (some no_record) h = absurd (cc (h))
  judge-quarantine (some temporary) h = absurd (cc (h))
  judge-quarantine (some permanent) h = absurd (cc (h))
  judge-quarantine (some (discovered at r policy)) h =
      let spf_ok = is_pass spf && aligned d from_domain spf_domain r.spf_alignment in
      let dkim_ok =
        any (λ x. is_pass x.value && aligned d from_domain x.domain r.dkim_alignment) dkim in
      elim (Bool-cases (spf_ok || dkim_ok)) [
        | inl proven ↦ absurd (cc (rw (judge, dkim_aligned, proven) at h))
        | inr unproven ↦
            let acts : (policy == d.quarantine || policy == d.reject) ≡ true =
              rw (judge, dkim_aligned, unproven) at h in
            (
              at,
              r,
              policy,
              refl,
              ground (arith, acts, text_beq_iff policy d.quarantine, text_beq_iff policy d.reject),
              (ground (arith, unproven), not_any _ dkim (ground (arith, unproven))),
            )
      ]

  -- A message is quarantined only where a DMARC record of the sender's domain, or of one above it, was
  -- found, its policy for the domain asks for quarantine or rejection, and neither SPF nor any
  -- signature passed with alignment.
  pub check_dmarc-quarantine :
      (check_dmarc d from_domain spf spf_domain dkim).1 ≡ true
      → ((at : Text) × (r : DmarcRecord) × (policy : Text) × (lookup_dmarc_record d from_domain
            ≡ some (discovered at r policy))
          × ((policy ≡ d.quarantine) ⊎ (policy ≡ d.reject))
          × Unproven d from_domain spf spf_domain dkim r)
  unfolding check_dmarc
  check_dmarc-quarantine h = elim (Bool-cases (from_domain == [])) [
    | inl blank ↦ absurd (cc (rw (check_dmarc, blank) at h))
    | inr set ↦ judge-quarantine (lookup_dmarc_record d from_domain) (rw (check_dmarc, set) at h)
  ]
