-- ===== src/Webmail/Compose/Lines.antt =====
-- internal/webmail/compose_handlers.go: the line ends of a composed message.
use mailroom.Prelude.{
  Bool-cases, false, nat_beq_iff, Text, [], ap, inl, inr, nat_eq, refl, replace_byte, text_eq, ℕ,
  ◌==◌, ◌∷◌, ◌≡◌, ◌∙◌,
}
use mailroom.Webmail.Compose.{drop_cr, to_crlf}

abbrev expand : Text → Text
expand s = replace_byte 10 (13 ∷ 10 ∷ []) s

-- The text does not start with a LF.
abbrev NoFeed : Text → Type 0
NoFeed [] = Unit
NoFeed (c ∷ s) = (c == 10) ≡ false

expand-NoFeed : (s : Text) → NoFeed (expand s)
unfolding replace_byte
expand-NoFeed [] = tt
expand-NoFeed (c ∷ s) = elim (Bool-cases (c == 10)) [
  | inl feed ↦ rw (replace_byte, feed) refl
  | inr other ↦ rw (replace_byte, other) other
]

drop_cr-plain : (c : ℕ) (t : Text) → NoFeed t → drop_cr (c ∷ t) ≡ c ∷ drop_cr t
unfolding drop_cr
drop_cr-plain c [] h = refl
drop_cr-plain c (d ∷ t) h = elim (Bool-cases (c == 13)) [
  | inl cr ↦ rw (drop_cr, cr, h) refl
  | inr other ↦ rw (drop_cr, other) refl
]

drop_cr-expand : (s : Text) → drop_cr (expand s) ≡ s
unfolding drop_cr replace_byte
drop_cr-expand [] = refl
drop_cr-expand (c ∷ s) = elim (Bool-cases (c == 10)) [
  | inl feed ↦
      let it : c ≡ 10 = (nat_beq_iff c 10).0 feed in
      rw (replace_byte, feed) (cc (it, drop_cr-expand s))
  | inr other ↦
      rw (replace_byte, other)
        (drop_cr-plain c (expand s) (expand-NoFeed s) ∙ ap (λ t. c ∷ t) (drop_cr-expand s))
]

-- Line ends are normalized once and for all: a text whose line ends are CR LF is sent as it is.
pub to_crlf_idem : (s : Text) → to_crlf (to_crlf s) ≡ to_crlf s
unfolding to_crlf
to_crlf_idem s = ap expand (drop_cr-expand (drop_cr s))
