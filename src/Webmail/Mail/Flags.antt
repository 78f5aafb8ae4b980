-- ===== src/Webmail/Mail/Flags.antt =====
-- internal/webmail/mail_handlers.go: the flag that a click toggles.
use mailroom.Prelude.{
  Bool, Bool-cases, List, Text, [], any, arith, equal_fold, false, inl, inr, keep, nat_eq, not,
  refl, same_refl, text_beq_iff, text_eq, to_lower, true, ◌++◌, ◌∙◌, ◌∷◌, ◌≡◌, ◌||◌,
}
use mailroom.Webmail.Mail.{toggle_flag}

abbrev pub has : Text → List Text → Bool
has flag flags = any (λ g. equal_fold g flag) flags

has-append :
    (flag : Text) (fs : List Text) (g : Text)
    → has flag (fs ++ g ∷ []) ≡ (has flag fs || equal_fold g flag)
unfolding any
has-append flag [] g = ground arith
has-append flag (f ∷ fs) g = ground (arith, has-append flag fs g)

has-keep_same :
    (flag : Text) (fs : List Text) → has flag (keep (λ g. not (equal_fold g flag)) fs) ≡ false
unfolding any keep
has-keep_same flag [] = refl
has-keep_same flag (f ∷ fs) = ground (arith, has-keep_same flag fs)

-- Flags that differ in more than their case
has-keep_other :
    (flag other : Text) (fs : List Text)
    → equal_fold flag other ≡ false
    → has other (keep (λ g. not (equal_fold g flag)) fs) ≡ has other fs
unfolding any keep equal_fold
has-keep_other flag other [] h = refl
has-keep_other flag other (f ∷ fs) h = ground (
  arith,
  has-keep_other flag other fs h,
  h,
  text_beq_iff (to_lower f) (to_lower flag),
  text_beq_iff (to_lower f) (to_lower other),
  text_beq_iff (to_lower flag) (to_lower other),
)

or_false : (b : Bool) → (b || false) ≡ b
or_false true = refl
or_false false = refl

-- A click turns a flag on where it was off and off where it was on, in whatever case it is spelled,
-- and leaves every other flag as it was.
pub toggle_flag_lem :
    (flags : List Text) (flag other : Text)
    → equal_fold flag other ≡ false
    → (has flag (toggle_flag flags flag) ≡ not (has flag flags))
      × (has other (toggle_flag flags flag) ≡ has other flags)
unfolding toggle_flag equal_fold
toggle_flag_lem flags flag other h =
    let out = keep (λ g. not (equal_fold g flag)) flags in
    let gone = has-keep_same flag flags in
    let kept = has-keep_other flag other flags h in
    elim (Bool-cases (has flag flags)) [
      | inl on ↦ rw (toggle_flag, on) (gone, kept)
      | inr off ↦
          rw (toggle_flag, off)
            (
              has-append flag out flag ∙ rw (gone, same_refl (to_lower flag)) refl,
              has-append other out flag ∙ rw (kept, h) (or_false (has other flags)),
            )
    ]
