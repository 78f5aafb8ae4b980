-- ===== src/Imap/Flags/Letters.antt =====
-- internal/imapbackend/flags.go: the letters of Maildir names, where the library spells the standard
-- flags with a capital, as RFC 3501 does.
use mailroom.Prelude.{
  All, Bool-cases, List, Option-cases, Text, [], false, inl, inr, lookup, nat_eq, none, refl, some,
  subst, sym, text_beq_iff, text_eq, to_lower, to_lower_idem, true, ℕ, ◌==◌, ◌∙◌, ◌∷◌, ◌≡◌,
}
use mailroom.Imap.Flags.{
  FlagNames, FlagSet, add_flag, canonical_flag, flag_of_letter, flag_set_from_maildir_letters,
  flags_of_letters, has_flag, letter_of_flag, letter_table, maildir_letters_from_flag_list,
}
use mailroom.Imap.Flags.Storing.{any-add_flag}

-- Every name has a letter in upper case.
abbrev pub IsCapital : FlagNames → Type 0
IsCapital n =
    All (λ f. (to_lower f == f) ≡ false)
      (n.seen ∷ n.answered ∷ n.flagged ∷ n.deleted ∷ n.draft ∷ [])

pub differs : (x f : Text) → (to_lower x == x) ≡ false → (x == to_lower f) ≡ false
differs x f capital = elim (Bool-cases (x == to_lower f)) [
  | inl same ↦
      let e : x ≡ to_lower f = (text_beq_iff x (to_lower f)).0 same in
      let low : (to_lower x == x) ≡ true =
        (text_beq_iff (to_lower x) x).1 (rw (e) (to_lower_idem f)) in
      cc
  | inr other ↦ other
]

no_letter : (n : FlagNames) (f : Text) → IsCapital n → letter_of_flag n (canonical_flag f) ≡ none
unfolding letter_of_flag canonical_flag lookup letter_table
no_letter n f (seen, (answered, (flagged, (deleted, (draft, _))))) =
    rw
      (
        differs n.seen f seen,
        differs n.answered f answered,
        differs n.flagged f flagged,
        differs n.deleted f deleted,
        differs n.draft f draft,
      )
      refl

no_letters :
    (n : FlagNames) (flags : List Text) → IsCapital n → maildir_letters_from_flag_list n flags ≡ []
unfolding maildir_letters_from_flag_list
no_letters n [] h = refl
no_letters n (f ∷ flags) h = rw (no_letter n f h) (no_letters n flags h)

lookup_capital :
    (c : ℕ) (flag : Text) (table : List (ℕ × Text))
    → All (λ (p : ℕ × Text). (to_lower p.1 == p.1) ≡ false) table
    → lookup c table ≡ some flag
    → (to_lower flag == flag) ≡ false
unfolding lookup
lookup_capital c flag [] h e = cc
lookup_capital c flag ((x, f) ∷ table) h e = elim (Bool-cases (x == c)) [
  | inl here ↦
      let head : lookup c ((x, f) ∷ table) ≡ some f = rw (lookup, here) refl in
      let joined : some f ≡ some flag = sym head ∙ e in
      let same : f ≡ flag = cc in subst (λ g. (to_lower g == g) ≡ false) same h.0
  | inr other ↦
      let tail : lookup c ((x, f) ∷ table) ≡ lookup c table = rw (lookup, other) refl in
      lookup_capital c flag table h.1 (sym tail ∙ e)
]

unseen :
    (n : FlagNames) (k letters : Text) (set : FlagSet)
    → IsCapital n
    → has_flag k set ≡ false
    → has_flag k (flags_of_letters n letters set) ≡ false
unfolding flags_of_letters has_flag flag_of_letter letter_table canonical_flag
unseen n k [] set h e = e
unseen n k (c ∷ letters) set h e = elim (Option-cases (flag_of_letter n c)) [
  | inl none_there ↦ rw (flags_of_letters, none_there) (unseen n k letters set h e)
  | inr (flag, there) ↦
      let capital = lookup_capital c flag (letter_table n) h there in
      rw (flags_of_letters, there)
        (unseen n k letters (add_flag flag set) h
          (rw (any-add_flag (to_lower k) flag set, differs flag k capital, e) refl))
]

-- Letters are lost both ways, where the library spells the standard flags with a capital. For no flags
-- does maildirLettersFromFlagList give a letter, since the table is asked for the flag in lower case;
-- and hasFlag is false for every flag on the set that is made of the letters in a name, since that set
-- has the flags with the capital while hasFlag looks for them in lower case.
pub letters_lost :
    (n : FlagNames) (flags : List Text) (k letters : Text)
    → IsCapital n
    → (maildir_letters_from_flag_list n flags ≡ [])
      × (has_flag k (flag_set_from_maildir_letters n letters) ≡ false)
unfolding flag_set_from_maildir_letters has_flag
letters_lost n flags k letters h = (no_letters n flags h, unseen n k letters [] h refl)
