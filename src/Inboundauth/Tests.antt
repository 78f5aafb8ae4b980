-- ===== src/Inboundauth/Tests.antt =====
-- Runs of internal/inboundauth/verify.go: a domain with a record above it.
use mailroom.Prelude.{
  Text, [], codes, if◌then◌else◌, nat_eq, refl, some, text_eq, to_lower, ◌==◌, ◌∷◌, ◌≡◌, ◌⊎◌,
}
use mailroom.Inboundauth.{
  Dmarc, DmarcRecord, after_dot, aligned, check_dmarc, discovered, dkim_aligned, judge,
  lookup_dmarc_record, no_policy, organization, policy_of, record_of, softfail, walk,
}
use mailroom.Inboundauth.Walk.{first_answer, lookup_dmarc_record_lem, parents, up_to}
use mailroom.Inboundauth.Quarantine.{Unproven, check_dmarc-quarantine}

abbrev strict_record : DmarcRecord
strict_record = record {
  policy = codes "reject";
  subdomain_policy = codes "quarantine";
  spf_alignment = codes "s";
  dkim_alignment = [];
}

-- Only a.org has a record.
abbrev dns : Dmarc
dns = record {
  lookup_txt = λ x. if x == codes "a.org" then record_of strict_record else no_policy;
  org_domain = λ x. some (codes "a.org");
  quarantine = codes "quarantine";
  reject = codes "reject";
  strict = codes "s";
}

walked :
    lookup_dmarc_record dns (codes "m.A.org")
    ≡ some (discovered (codes "a.org") strict_record (codes "quarantine"))
unfolding lookup_dmarc_record organization walk policy_of after_dot to_lower
walked = refl

lookup_dmarc_record_lem_example :
    lookup_dmarc_record dns (codes "m.A.org")
    ≡ some (
        first_answer dns (to_lower (codes "m.A.org")) (
          up_to
            (organization dns (to_lower (codes "m.A.org")))
            (to_lower (codes "m.A.org") ∷ parents (to_lower (codes "m.A.org")))))
lookup_dmarc_record_lem_example = lookup_dmarc_record_lem dns (codes "m.A.org")

check_dmarc-quarantine_example :
    (at : Text) × (r : DmarcRecord) × (policy : Text) × (lookup_dmarc_record dns (codes "m.a.org")
      ≡ some (discovered at r policy))
    × ((policy ≡ codes "quarantine") ⊎ (policy ≡ codes "reject"))
    × Unproven dns (codes "m.a.org") softfail (codes "b.org") [] r
unfolding check_dmarc judge dkim_aligned aligned lookup_dmarc_record organization walk policy_of
    after_dot to_lower
check_dmarc-quarantine_example =
    check_dmarc-quarantine dns (codes "m.a.org") softfail (codes "b.org") [] refl
