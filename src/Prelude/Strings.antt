-- ===== src/Prelude/Strings.antt =====
-- Texts as lists of character codes, with the functions of Go's `strings` that the server uses.
-- Letters are lowered as `strings.ToLower` does on ASCII; other codes are left alone.
use Prim.Native.Nat.{ℕ, zero, suc, ◌+◌, ◌*◌, ◌/◌, ◌%◌, ◌^◌, ◌≤◌, ◌<◌}
use native.Mathlib.Nat.{pow-suc}
use native.Mathlib.Decide.{dec_lt}
use Prim.Native.Char.{code}
use Prim.Native.String.{String}
use mathlib.Core.Path.{◌≡◌, refl}
use mathlib.Core.Logic.{◌↔◌, ◌≢◌}
use mathlib.Core.Option
use mathlib.Core.Option.{Option, none, some}
use mathlib.Core.Bool.{Bool, true, false, ◌&&◌, ◌||◌}
use mathlib.Core.List.{List, [], ◌∷◌, ◌++◌, append_assoc}
use native.Mathlib.Omega.{arith}
use mailroom.Prelude.Tests.{nat_beq, ltb, leb, Comparable, ◌==◌, nat_eq, if◌then◌else◌}
use mailroom.Prelude.Lists.{All, All-append}

abbrev pub Text : Type 0
Text = List ℕ

-- The codes of a literal.
abbrev pub codes : String → Text
codes = elim [ String.[] ↦ [] | String.◌∷◌ ch (rest → text) ↦ code ch ∷ text ]

abbrev pub text_beq : Text → Text → Bool
text_beq [] [] = true
text_beq [] (d ∷ t) = false
text_beq (c ∷ s) [] = false
text_beq (c ∷ s) (d ∷ t) = nat_beq c d && text_beq s t

sound : (s t : Text) → text_beq s t ≡ true → s ≡ t
sound [] [] h = refl
sound [] (d ∷ t) h = cc
sound (c ∷ s) [] h = cc
sound (c ∷ s) (d ∷ t) h = ground (arith, sound s t)

text_beq_self : (s : Text) → text_beq s s ≡ true
text_beq_self [] = refl
text_beq_self (c ∷ s) = ground (arith, text_beq_self s)

pub text_beq_iff : (s t : Text) → (text_beq s t ≡ true) ↔ (s ≡ t)
text_beq_iff s t = (sound s t, λ e. subst_self e)
  where
    subst_self : s ≡ t → text_beq s t ≡ true
    subst_self e = rw (← e) (text_beq_self s)

instance abbrev pub text_eq : Comparable Text
text_eq = record { same = text_beq; same_iff = text_beq_iff }

unfoldable pub to_lower_code : ℕ → ℕ
to_lower_code c = if leb b'A' c && leb c b'Z' then c + 32 else c

-- strings.ToLower
unfoldable pub to_lower : Text → Text
unfolding to_lower_code
to_lower [] = []
to_lower (c ∷ s) = to_lower_code c ∷ to_lower s

-- strings.EqualFold
unfoldable pub equal_fold : Text → Text → Bool
unfolding to_lower
equal_fold s t = to_lower s == to_lower t

to_lower_code_idem : (c : ℕ) → to_lower_code (to_lower_code c) ≡ to_lower_code c
unfolding to_lower_code
to_lower_code_idem c = ground arith

pub to_lower_idem : (s : Text) → to_lower (to_lower s) ≡ to_lower s
unfolding to_lower
to_lower_idem [] = refl
to_lower_idem (c ∷ s) = cc (to_lower_code_idem c, to_lower_idem s)

pub to_lower-append : (s t : Text) → to_lower (s ++ t) ≡ to_lower s ++ to_lower t
unfolding to_lower
to_lower-append [] t = refl
to_lower-append (c ∷ s) t = cc (to_lower-append s t)

-- The ASCII white space that strings.TrimSpace and strings.Fields split at.
unfoldable pub is_space : ℕ → Bool
is_space c = (leb 9 c && leb c 13) || c == 32

unfoldable pub trim_left : (ℕ → Bool) → Text → Text
trim_left p [] = []
trim_left p (c ∷ s) = let rest = trim_left p s in if p c then rest else c ∷ s

unfoldable pub trim_right : (ℕ → Bool) → Text → Text
trim_right p [] = []
trim_right p (c ∷ s) = elim (trim_right p s) [ [] ↦ if p c then [] else c ∷ [] | d ∷ t ↦ c ∷ d ∷ t ]

-- strings.TrimSpace
unfoldable pub trim_space : Text → Text
unfolding trim_left trim_right is_space
trim_space s = trim_right is_space (trim_left is_space s)

-- strings.HasPrefix
unfoldable pub has_prefix : Text → Text → Bool
has_prefix s [] = true
has_prefix [] (d ∷ t) = false
has_prefix (c ∷ s) (d ∷ t) = c == d && has_prefix s t

-- The order of `<` on Go strings.
unfoldable pub text_ltb : Text → Text → Bool
text_ltb s [] = false
text_ltb [] (d ∷ t) = true
text_ltb (c ∷ s) (d ∷ t) = ltb c d || (c == d && text_ltb s t)

-- strings.Index; `none` stands for -1.
unfoldable pub index : Text → Text → Option ℕ
unfolding has_prefix
index [] sub = if has_prefix [] sub then some 0 else none
index (c ∷ s) sub =
    let rest = Option.map suc (index s sub) in if has_prefix (c ∷ s) sub then some 0 else rest

-- strings.Contains
unfoldable pub contains : Text → Text → Bool
unfolding index
contains s sub = elim (index s sub) [ none ↦ false | some i ↦ true ]

-- strings.Split at one byte.
unfoldable pub split_at_byte : ℕ → Text → List Text
split_at_byte b [] = [] ∷ []
split_at_byte b (c ∷ s) = elim (split_at_byte b s) [
  | [] ↦ [] ∷ []
  | part ∷ parts ↦ if c == b then [] ∷ part ∷ parts else (c ∷ part) ∷ parts
]

-- strings.Join
unfoldable pub join : List Text → Text → Text
join [] sep = []
join (s ∷ []) sep = s
join (s ∷ t ∷ ts) sep = s ++ (sep ++ join (t ∷ ts) sep)

-- strings.ReplaceAll for one byte.
unfoldable pub replace_byte : ℕ → Text → Text → Text
replace_byte b new [] = []
replace_byte b new (c ∷ s) =
    let rest = replace_byte b new s in if c == b then new ++ rest else c ∷ rest

-- `%d` of an unsigned number, with a digit for each unit of fuel: 20 print any 64-bit number.
unfoldable pub decimal_digits : ℕ → ℕ → Text
decimal_digits zero n = []
decimal_digits (suc f) n =
    let front = decimal_digits f (n / 10) in
    if ltb n 10 then (b'0' + n) ∷ [] else front ++ (b'0' + n % 10) ∷ []

unfoldable pub decimal : ℕ → Text
unfolding decimal_digits
decimal n = decimal_digits 20 n

-- The low digits of a number: `%0wd` for a number of at most `w` digits.
unfoldable pub padded : ℕ → ℕ → Text
padded zero n = []
padded (suc w) n = padded w (n / 10) ++ (b'0' + n % 10) ∷ []

-- A text without the byte.
abbrev pub Lacks : ℕ → Text → Type 0
Lacks b = All (λ c. c ≢ b)

pub padded-digits : (w n : ℕ) → All (λ c. (b'0' ≤ c) × (c ≤ b'9')) (padded w n)
unfolding padded
padded-digits zero n = tt
padded-digits (suc w) n =
    All-append (λ c. (b'0' ≤ c) × (c ≤ b'9')) (padded w (n / 10)) ((b'0' + n % 10) ∷ [])
      (padded-digits w (n / 10)) (omega arith)

pub text_ltb-append_left : (p s t : Text) → text_ltb (p ++ s) (p ++ t) ≡ text_ltb s t
unfolding text_ltb
text_ltb-append_left [] s t = refl
text_ltb-append_left (c ∷ p) s t = ground (arith, text_ltb-append_left p s t)

last_digit : (c d : ℕ) (s t : Text) → c < d → text_ltb (c ∷ s) (d ∷ t) ≡ true
unfolding text_ltb
last_digit c d s t h = ground arith

-- Fixed-width numbers are ordered as texts as they are as numbers.
pub text_ltb-padded :
    (w a b : ℕ) (s t : Text)
    → a < b
    → b < 10 ^ w
    → text_ltb (padded w a ++ s) (padded w b ++ t) ≡ true
unfolding padded
text_ltb-padded zero a b s t h k = absurd (omega arith)
text_ltb-padded (suc w) a b s t h k =
    rw
      (
        append_assoc (padded w (a / 10)) ((b'0' + a % 10) ∷ []) s,
        append_assoc (padded w (b / 10)) ((b'0' + b % 10) ∷ []) t,
      )
      (elim (dec_lt (a / 10) (b / 10)) [
        | yes less ↦
            text_ltb-padded w (a / 10) (b / 10) ((b'0' + a % 10) ∷ s) ((b'0' + b % 10) ∷ t) less
              (let scale : 10 ^ suc w ≡ 10 ^ w * 10 = pow-suc 10 w in omega (arith, scale))
        | no same ↦
            let e : a / 10 ≡ b / 10 = omega arith in
            rw (e, text_ltb-append_left (padded w (b / 10)))
              (last_digit (b'0' + a % 10) (b'0' + b % 10) s t (omega arith))
      ])
