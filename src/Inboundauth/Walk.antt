-- ===== src/Inboundauth/Walk.antt =====
-- internal/inboundauth/verify.go: where the DMARC record is looked for, after RFC 7489, 6.6.3.
use mailroom.Prelude.{
  Bool-cases, List, Text, [], ap, arith, if◌then◌else◌, inl, inr, length, nat_eq, none, refl, some,
  suc, sym, text_eq, to_lower, zero, ℕ, ◌<◌, ◌==◌, ◌∙◌, ◌∷◌, ◌≡◌, ◌⊎◌,
}
use mailroom.Inboundauth.{
  Discovery, Dmarc, Lookup, after_dot, discovered, lookup_dmarc_record, no_policy, no_record,
  organization, perm_fail, permanent, policy_of, record_of, temp_fail, temporary, walk,
}

-- The domains above a domain, the next one first.
abbrev pub parents : Text → List Text
parents [] = []
parents (c ∷ s) = if c == b'.' then s ∷ parents s else parents s

-- The domains up to the organization's, that one too, or all of them.
abbrev pub up_to : Text → List Text → List Text
up_to org [] = []
up_to org (x ∷ xs) = if x == org then x ∷ [] else x ∷ up_to org xs

module _ (d : Dmarc) (from : Text) where
  -- The answer of the first domain that has one other than that there is no record.
  abbrev pub first_answer : List Text → Discovery
  first_answer [] = no_record
  first_answer (x ∷ xs) = elim (d.lookup_txt x) [
    | record_of r ↦ discovered x r (policy_of d from x r)
    | temp_fail ↦ temporary
    | perm_fail ↦ permanent
    | no_policy ↦ first_answer xs
  ]

  -- The domain above, where there is one.
  above :
      (s : Text)
      → ((after_dot s ≡ none) × (parents s ≡ []))
        ⊎ ((up : Text) × (after_dot s ≡ some up)
            × (parents s ≡ up ∷ parents up)
            × (length up < length s))
  unfolding after_dot
  above [] = inl (refl, refl)
  above (c ∷ s) = elim (Bool-cases (c == b'.')) [
    | inl dot ↦ inr (s, rw (dot) refl, rw (dot) refl, omega arith)
    | inr code ↦ elim (above s) [
      | inl (e, p) ↦ inl (rw (code) e, rw (code) p)
      | inr (up, e, p, less) ↦ inr (up, rw (code) e, rw (code) p, omega (arith, less))
    ]
  ]

  -- A domain with an answer of its own.
  first_answer-here :
      (org domain : Text) (answer : Discovery)
      → ((xs : List Text) → first_answer (domain ∷ xs) ≡ answer)
      → first_answer (up_to org (domain ∷ parents domain)) ≡ answer
  first_answer-here org domain answer h = elim (Bool-cases (domain == org)) [
    | inl top ↦ rw (top) (h [])
    | inr below ↦ rw (below) (h (up_to org (parents domain)))
  ]

  first_answer-next :
      (x : Text) (xs : List Text)
      → d.lookup_txt x ≡ no_policy
      → first_answer (x ∷ xs) ≡ first_answer xs
  first_answer-next x xs q = rw (first_answer, q) refl

  walk_round :
      (org : Text) (fuel : ℕ) (domain : Text)
      → ((up : Text)
          → length up < fuel
          → walk d from org fuel up ≡ some (first_answer (up_to org (up ∷ parents up))))
      → length domain < suc fuel
      → (r : Lookup) → d.lookup_txt domain ≡ r
      → walk d from org (suc fuel) domain
        ≡ some (first_answer (up_to org (domain ∷ parents domain)))
  unfolding walk
  walk_round org fuel domain ih h (record_of r) q =
      rw (walk, q)
        (ap some (
          sym (
            first_answer-here org domain (discovered domain r (policy_of d from domain r))
              (λ xs. rw (first_answer, q) refl))))
  walk_round org fuel domain ih h temp_fail q =
      rw (walk, q)
        (ap some (sym (first_answer-here org domain temporary (λ xs. rw (first_answer, q) refl))))
  walk_round org fuel domain ih h perm_fail q =
      rw (walk, q)
        (ap some (sym (first_answer-here org domain permanent (λ xs. rw (first_answer, q) refl))))
  walk_round org fuel domain ih h no_policy q = elim (Bool-cases (domain == org)) [
    | inl top ↦ rw (walk, q, top) (ap some (sym (first_answer-next domain [] q)))
    | inr below ↦
        let next = first_answer-next domain (up_to org (parents domain)) q in
        elim (above domain) [
          | inl (e, p) ↦
              rw (walk, q, below, e) (ap some (sym (next ∙ ap (λ l. first_answer (up_to org l)) p)))
          | inr (up, e, p, less) ↦
              rw (walk, q, below, e)
                (ih up (omega (arith, less, h))
                  ∙ ap some (sym (next ∙ ap (λ l. first_answer (up_to org l)) p)))
        ]
  ]

  pub walk_lem :
      (org : Text) (fuel : ℕ) (domain : Text)
      → length domain < fuel
      → walk d from org fuel domain ≡ some (first_answer (up_to org (domain ∷ parents domain)))
  unfolding walk
  walk_lem org zero domain h = absurd (omega arith)
  walk_lem org (suc fuel) domain h =
      walk_round org fuel domain (λ up less. walk_lem org fuel up less) h (d.lookup_txt domain) refl

-- The search ends, and gives the answer of the first domain, from the sender's up to its
-- organization's, that has one.
pub lookup_dmarc_record_lem :
    (d : Dmarc) (from_domain : Text)
    → let from = to_lower from_domain in
      lookup_dmarc_record d from_domain
      ≡ some (first_answer d from (up_to (organization d from) (from ∷ parents from)))
unfolding lookup_dmarc_record
lookup_dmarc_record_lem d from_domain =
    walk_lem d (to_lower from_domain) (organization d (to_lower from_domain))
      (suc (length (to_lower from_domain))) (to_lower from_domain) (omega arith)
