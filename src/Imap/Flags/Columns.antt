-- ===== src/Imap/Flags/Columns.antt =====
-- internal/imapbackend/flags.go: the flags column of the database.
use mailroom.Prelude.{
  All, Bool-cases, List, Text, [], any, ap, arith, codes, equal_fold, false, inl, inr, is_nil,
  is_space, join, keep, map, nat_eq, refl, text_eq, ◌++◌, ◌∷◌, ◌≡◌,
}
use mailroom.Imap.Flags.{canonical_flag, decode_flags, encode_flags, fields, has_flag, split_space}
use mailroom.Imap.Flags.Storing.{any-add_flags, any-canonical}

-- An IMAP atom, as far as its separators go.
abbrev pub Atom : Text → Type 0
Atom w = (is_nil w ≡ false) × All (λ c. is_space c ≡ false) w

split_space_some : (s : Text) → ((p : Text) × (ps : List Text) × (split_space s ≡ p ∷ ps))
unfolding split_space
split_space_some [] = ([], [], refl)
split_space_some (c ∷ s) =
    let (p, ps, e) = split_space_some s in
    elim (Bool-cases (is_space c)) [
      | inl space ↦ ([], p ∷ ps, rw (split_space, e, space) refl)
      | inr code ↦ (c ∷ p, ps, rw (split_space, e, code) refl)
    ]

split_space-word : (w : Text) → All (λ c. is_space c ≡ false) w → split_space w ≡ w ∷ []
unfolding split_space
split_space-word [] h = refl
split_space-word (c ∷ w) (here, h) = rw (split_space-word w h, here) refl

split_space-append :
    (w s : Text) → All (λ c. is_space c ≡ false) w → split_space (w ++ 32 ∷ s) ≡ w ∷ split_space s
unfolding split_space is_space
split_space-append [] s h = let (p, ps, e) = split_space_some s in rw (e) refl
split_space-append (c ∷ w) s (here, h) = rw (split_space-append w s h, here) refl

fields-join : (ws : List Text) → All Atom ws → fields (join ws (codes " ")) ≡ ws
unfolding fields join keep
fields-join [] h = refl
fields-join (w ∷ []) ((some_code, word), h) = rw (split_space-word w word, some_code) refl
fields-join (w ∷ v ∷ ws) ((some_code, word), h) =
    rw (split_space-append w (join (v ∷ ws) (codes " ")) word, some_code)
      (ap (λ l. w ∷ l) (fields-join (v ∷ ws) h))

-- What is written to the column is read back: a flag is there, in any case, exactly where it was
-- written. Flags are atoms.
decode-encode :
    (k : Text) (flags : List Text)
    → All Atom flags
    → has_flag k (decode_flags (encode_flags flags)) ≡ any (λ g. equal_fold g k) flags
unfolding decode_flags encode_flags has_flag
decode-encode k flags h =
    rw
      (
        fields-join flags h,
        any-add_flags (canonical_flag k) (map canonical_flag flags) [],
        any-canonical k flags,
      )
      (ground arith)
