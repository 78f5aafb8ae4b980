-- ===== src/Address/Laws.antt =====
-- What internal/address/address.go accepts, and where it cuts.
use mailroom.Prelude.{
  All, Option-cases, Text, [], ap, arith, drop, drop-suc-length_append, inl, inr, length,
  length-append, none, refl, some, suc, take, take-length_append, ℕ, ◌++◌, ◌∷◌, ◌≡◌, ◌≢◌,
}
use mailroom.Address.{last_index_byte, split}

-- A text without the byte.
abbrev pub Lacks : ℕ → Text → Type 0
Lacks c = All (λ d. d ≢ c)

last_index_byte-none : (s : Text) (c : ℕ) → last_index_byte s c ≡ none → Lacks c s
unfolding last_index_byte
last_index_byte-none [] c h = tt
last_index_byte-none (d ∷ s) c h = ground (arith, last_index_byte-none s c)

none_of_Lacks : (s : Text) (c : ℕ) → Lacks c s → last_index_byte s c ≡ none
unfolding last_index_byte
none_of_Lacks [] c h = refl
none_of_Lacks (d ∷ s) c h = ground (arith, none_of_Lacks s c h.1)

last_index_byte-some :
    (s : Text) (c i : ℕ)
    → last_index_byte s c ≡ some i
    → (s ≡ take i s ++ c ∷ drop (suc i) s) × (Lacks c (drop (suc i) s)) × (length (take i s) ≡ i)
unfolding last_index_byte take drop
last_index_byte-some [] c i h = cc
last_index_byte-some (d ∷ s) c i h = elim (Option-cases (last_index_byte s c)) [
  | inl e ↦ ground (arith, e, last_index_byte-none s c)
  | inr (j, e) ↦ ground (arith, e, last_index_byte-some s c j)
]

pub last_index_byte-append :
    (l d : Text) (c : ℕ) → Lacks c d → last_index_byte (l ++ c ∷ d) c ≡ some (length l)
unfolding last_index_byte
last_index_byte-append [] d c h = ground (arith, none_of_Lacks d c h)
last_index_byte-append (x ∷ l) d c h = ground (arith, last_index_byte-append l d c h)

-- Where an address is accepted, it is the local part, an `@` and the domain: both parts are
-- non-empty, and the domain has no further `@`.
pub split_sound :
    (addr l d : Text)
    → split addr ≡ some (l, d)
    → (addr ≡ l ++ b'@' ∷ d) × (l ≢ []) × (d ≢ []) × Lacks b'@' d
unfolding split
split_sound addr l d h = elim (Option-cases (last_index_byte addr b'@')) [
  | inl e ↦ cc (rw (e, split) at h)
  | inr (i, e) ↦
      let (cut, lacks, at) = last_index_byte-some addr b'@' i e in
      ground (
        arith,
        e,
        cut,
        lacks,
        at,
        ap length cut,
        length-append (take i addr) (b'@' ∷ drop (suc i) addr),
      )
]

-- Every pair of a non-empty local part and a non-empty domain without `@` is read back from its
-- address.
split-join : (l d : Text) → l ≢ [] → d ≢ [] → Lacks b'@' d → split (l ++ b'@' ∷ d) ≡ some (l, d)
unfolding split
split-join [] d hl hd h = absurd (hl refl)
split-join (x ∷ l) [] hl hd h = absurd (hd refl)
split-join (x ∷ l) (y ∷ d) hl hd h = ground (
  arith,
  last_index_byte-append (x ∷ l) (y ∷ d) b'@' h,
  take-length_append (x ∷ l) (b'@' ∷ y ∷ d),
  drop-suc-length_append (x ∷ l) b'@' (y ∷ d),
  length-append (x ∷ l) (b'@' ∷ y ∷ d),
)
