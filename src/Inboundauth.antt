-- ===== src/Inboundauth.antt =====
-- internal/inboundauth/verify.go. Looking up a DMARC record, the list of public suffixes, the checks of
-- SPF and of DKIM signatures, and reading a message's header belong to other libraries and are
-- parameters; so are the spellings that a DMARC record uses. Metrics and time limits are left out.
pub mod Walk
pub mod Quarantine
mod Tests
use mailroom.Prelude.{
  Bool, List, Option, Text, [], any, equal_fold, false, if◌then◌else◌, length, map, nat_eq, none,
  not, some, suc, text_eq, to_lower, true, zero, ℕ, ◌&&◌, ◌==◌, ◌||◌, ◌∷◌,
}
use mailroom.Address.{split}

-- dmarc.Record, as far as it is read; a subdomain policy that is not set is empty.
pub record DmarcRecord : Type 0 where
  pub policy : Text
  pub subdomain_policy : Text
  pub spf_alignment : Text
  pub dkim_alignment : Text

-- What dmarc.LookupWithOptions gives; ErrNoPolicy is `no_policy`.
pub data Lookup : Type 0 where
  record_of : DmarcRecord → Lookup
  no_policy temp_fail perm_fail : Lookup

-- What lookupDMARCRecord gives: with the record the domain where it stood, and the policy.
pub data Discovery : Type 0 where
  discovered : Text → DmarcRecord → Text → Discovery
  no_record temporary permanent : Discovery

pub record Dmarc : Type 0 where
  pub lookup_txt : Text → Lookup
  pub org_domain : Text → Option Text
  pub quarantine : Text
  pub reject : Text
  pub strict : Text

-- strings.Cut at ".": what stands after it.
unfoldable pub after_dot : Text → Option Text
after_dot [] = none
after_dot (c ∷ s) = if c == b'.' then some s else after_dot s

module _ (d : Dmarc) where
  -- The policy that applies: above the domain itself, the one for subdomains, if it is set.
  unfoldable pub policy_of : Text → Text → DmarcRecord → Text
  policy_of from domain r =
      if not (domain == from) && not (r.subdomain_policy == [])
      then r.subdomain_policy
      else r.policy

  -- The loop of lookupDMARCRecord.
  unfoldable pub walk : Text → Text → ℕ → Text → Option Discovery
  unfolding after_dot policy_of
  walk from org zero domain = none
  walk from org (suc fuel) domain =
      let next = λ (up : Text). walk from org fuel up in
      elim (d.lookup_txt domain) [
        | record_of r ↦ some (discovered domain r (policy_of from domain r))
        | temp_fail ↦ some temporary
        | perm_fail ↦ some permanent
        | no_policy ↦
            if domain == org
            then some no_record
            else elim (after_dot domain) [ none ↦ some no_record | some up ↦ next up ]
      ]

  unfoldable pub organization : Text → Text
  organization from = elim (d.org_domain from) [ none ↦ from | some org ↦ org ]

  -- lookupDMARCRecord; a round drops a code of the domain at least.
  unfoldable pub lookup_dmarc_record : Text → Option Discovery
  unfolding walk organization to_lower
  lookup_dmarc_record from_domain =
      let from = to_lower from_domain in walk from (organization from) (suc (length from)) from

  unfoldable pub same_organization : Text → Text → Bool
  unfolding to_lower equal_fold
  same_organization a b = elim (d.org_domain (to_lower a)) [
    | none ↦ false
    | some x ↦ elim (d.org_domain (to_lower b)) [ none ↦ false | some y ↦ equal_fold x y ]
  ]

  unfoldable pub aligned : Text → Text → Text → Bool
  unfolding equal_fold same_organization
  aligned from_domain other_domain mode =
      if other_domain == []
      then false
      else if equal_fold from_domain other_domain
      then true
      else if mode == d.strict
      then false
      else same_organization from_domain other_domain

-- authres.ResultValue, and spf.Result, whose values are the same words.
pub data Value : Type 0 where
  pass fail none_value neutral softfail temperror permerror : Value

unfoldable pub is_pass : Value → Bool
is_pass pass = true
is_pass fail = false
is_pass none_value = false
is_pass neutral = false
is_pass softfail = false
is_pass temperror = false
is_pass permerror = false

pub record DkimResult : Type 0 where
  pub value : Value
  pub reason : Text
  pub domain : Text
  pub identifier : Text

-- How a signature failed, with the error's text.
pub data DkimFailure : Type 0 where
  dkim_temporary dkim_permanent dkim_other : Text → DkimFailure

pub record Verification : Type 0 where
  pub err : Option DkimFailure
  pub domain : Text
  pub identifier : Text

unfoldable pub dkim_outcome : Option DkimFailure → Value × Text
dkim_outcome none = (pass, [])
dkim_outcome (some (dkim_temporary why)) = (temperror, why)
dkim_outcome (some (dkim_permanent why)) = (permerror, why)
dkim_outcome (some (dkim_other why)) = (fail, why)

abbrev dkim_result : Verification → DkimResult
dkim_result v = record {
  value = (dkim_outcome v.err).0;
  reason = (dkim_outcome v.err).1;
  domain = v.domain;
  identifier = v.identifier;
}

-- checkDKIM, of what the library made of the signatures; none where it fails.
unfoldable pub check_dkim : Option (List Verification) → List DkimResult
unfolding dkim_outcome
check_dkim none = record { value = none_value; reason = []; domain = []; identifier = [] } ∷ []
check_dkim (some []) = record { value = none_value; reason = []; domain = []; identifier = [] } ∷ []
check_dkim (some (v ∷ vs)) = map dkim_result (v ∷ vs)

-- checkSPF; `check_host` is spf.CheckHostWithSender of the client's address.
unfoldable pub check_spf : Option (Text → Text → Value) → Text → Text → Value × Text
unfolding split
check_spf none helo mail_from = (none_value, [])
check_spf (some check_host) helo mail_from =
    let domain : Text = elim (split mail_from) [ none ↦ helo | some (_, x) ↦ x ] in
    if domain == [] then (none_value, []) else (check_host helo mail_from, domain)

module _ (d : Dmarc) where
  -- A signature that passed and is aligned.
  unfoldable pub dkim_aligned : Text → Text → List DkimResult → Bool
  unfolding any aligned is_pass
  dkim_aligned from_domain mode results =
      any (λ r. is_pass r.value && aligned d from_domain r.domain mode) results

  -- checkDMARC's entry of the header, and whether to act; out of fuel it has neither.
  unfoldable pub judge :
      Text → Value → Text → List DkimResult → Option Discovery → Option Value × Bool
  unfolding aligned dkim_aligned is_pass
  judge from_domain spf spf_domain dkim none = (none, false)
  judge from_domain spf spf_domain dkim (some no_record) = (some none_value, false)
  judge from_domain spf spf_domain dkim (some temporary) = (some temperror, false)
  judge from_domain spf spf_domain dkim (some permanent) = (some permerror, false)
  judge from_domain spf spf_domain dkim (some (discovered domain r policy)) =
      let spf_aligned = is_pass spf && aligned d from_domain spf_domain r.spf_alignment in
      if spf_aligned || dkim_aligned from_domain r.dkim_alignment dkim
      then (some pass, false)
      else (some fail, policy == d.quarantine || policy == d.reject)

  unfoldable pub check_dmarc : Text → Value → Text → List DkimResult → Option Value × Bool
  unfolding judge lookup_dmarc_record
  check_dmarc from_domain spf spf_domain dkim =
      if from_domain == []
      then (none, false)
      else judge from_domain spf spf_domain dkim (lookup_dmarc_record d from_domain)

-- extractFromDomain: the value of From, none where the message cannot be read and empty where it has
-- none, and the addresses in it, none where they cannot be parsed.
unfoldable pub extract_from_domain : (Text → Option (List Text)) → Option Text → Text
unfolding split
extract_from_domain parse_list none = []
extract_from_domain parse_list (some from_header) =
    if from_header == [] then [] else elim (parse_list from_header) [
      | none ↦ []
      | some [] ↦ []
      | some (a ∷ _) ↦ elim (split a) [ none ↦ [] | some (_, domain) ↦ domain ]
    ]

pub record Verified : Type 0 where
  pub spf : Value
  pub spf_domain : Text
  pub dkim : List DkimResult
  pub dmarc : Option Value
  pub should_quarantine : Bool

-- Verify: what the header reports, whose writing belongs to the library, and ShouldQuarantine.
unfoldable pub verify :
    Dmarc
    → Option (Text → Text → Value)
    → (Text → Option (List Text))
    → Text
    → Text
    → Option Text
    → Option (List Verification)
    → Verified
unfolding check_spf check_dkim check_dmarc extract_from_domain
verify d check_host parse_list helo mail_from from_header verifications =
    let (spf, spf_domain) = check_spf check_host helo mail_from in
    let dkim = check_dkim verifications in
    let from_domain = extract_from_domain parse_list from_header in
    let (dmarc, act) = check_dmarc d from_domain spf spf_domain dkim in
    record {
      spf = spf;
      spf_domain = spf_domain;
      dkim = dkim;
      dmarc = dmarc;
      should_quarantine = act;
    }
