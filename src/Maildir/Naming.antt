-- ===== src/Maildir/Naming.antt =====
-- internal/maildir/maildir.go: the names that `uniqueName` and `SetFlags` make.
use native.Mathlib.Nat.{zero-add}
use mathlib.Core.Path.{ap₂}
use mailroom.Prelude.{
  All, All-append, Lacks, List, Option, Text, [], arith, codes, decimal_digits, drop, has_prefix,
  index, keep, length, nat_eq, none, padded, padded-digits, refl, some, suc, take-length_append,
  text_eq, text_ltb, text_ltb-padded, true, zero, ℕ, ◌%◌, ◌&&◌, ◌++◌, ◌+◌, ◌/◌, ◌<◌, ◌^◌, ◌∷◌, ◌≡◌,
  ◌≢◌, ◌≤◌,
}
use mailroom.Maildir.Names.{
  escape_hostname, flag_letters, flagged_name, has_flag, hex_encode, host_or_local, normalize_flags,
  split_flags, unique_name,
}

-- Names made at a later nanosecond are greater as texts, so sorting by key sorts by delivery; the
-- clock counts below 10 ^ 20, as any 64-bit clock does.
unique_name_order :
    (a b : ℕ) (r s : List ℕ) (p q n m : ℕ) (h k : Option Text)
    → a < b
    → b < 10 ^ 20
    → text_ltb (unique_name a r p n h) (unique_name b s q m k) ≡ true
unfolding unique_name
unique_name_order a b r s p q n m h k less bound = text_ltb-padded 20 a b _ _ less bound

Lacks-digits : (b : ℕ) (s : Text) → b'9' < b → All (λ c. (b'0' ≤ c) × (c ≤ b'9')) s → Lacks b s
Lacks-digits b [] h a = tt
Lacks-digits b (c ∷ s) h a =
    ((λ e. absurd (let d : c ≤ b'9' = a.0.1 in omega (arith, e))), Lacks-digits b s h a.1)

decimal_digits-digits : (f n : ℕ) → All (λ c. (b'0' ≤ c) × (c ≤ b'9')) (decimal_digits f n)
unfolding decimal_digits
decimal_digits-digits zero n = tt
decimal_digits-digits (suc f) n = ground (
  arith,
  decimal_digits-digits f (n / 10),
  All-append (λ c. (b'0' ≤ c) × (c ≤ b'9')) (decimal_digits f (n / 10)) ((b'0' + n % 10) ∷ []),
)

hex_encode-Lacks : (bs : List ℕ) → All (λ b. b < 256) bs → Lacks b':' (hex_encode bs)
unfolding hex_encode
hex_encode-Lacks [] h = tt
hex_encode-Lacks (b ∷ bs) h = ground (arith, hex_encode-Lacks bs h.1)

escape_hostname-Lacks : (s : Text) → Lacks b':' (escape_hostname s)
unfolding escape_hostname
escape_hostname-Lacks [] = tt
escape_hostname-Lacks (c ∷ s) = ground (arith, escape_hostname-Lacks s)

Lacks-joined : (b sep : ℕ) (s t : Text) → sep ≢ b → Lacks b s → Lacks b t → Lacks b (s ++ sep ∷ t)
Lacks-joined b sep s t h x y = All-append (λ c. c ≢ b) s (sep ∷ t) x (h, y)

unique_name-Lacks :
    (clock : ℕ) (r : List ℕ) (pid n : ℕ) (h : Option Text)
    → All (λ b. b < 256) r
    → Lacks b':' (unique_name clock r pid n h)
unfolding unique_name
unique_name-Lacks clock r pid n h bytes =
    Lacks-joined b':' b'.' (padded 20 clock) _ (omega arith)
      (Lacks-digits b':' (padded 20 clock) (omega arith) (padded-digits 20 clock))
      (All-append (λ c. c ≢ b':') (hex_encode r) _ (hex_encode-Lacks r bytes)
        (Lacks-joined b':' b'_' (decimal_digits 20 pid) _ (omega arith)
          (Lacks-digits b':' (decimal_digits 20 pid) (omega arith) (decimal_digits-digits 20 pid))
          (Lacks-joined b':' b'.' (decimal_digits 20 n) (escape_hostname (host_or_local h))
            (omega arith)
            (Lacks-digits b':' (decimal_digits 20 n) (omega arith) (decimal_digits-digits 20 n))
            (escape_hostname-Lacks (host_or_local h)))))

index-none : (s : Text) → Lacks b':' s → index s (codes ":2,") ≡ none
unfolding index has_prefix
index-none [] h = refl
index-none (c ∷ s) h = ground (arith, index-none s h.1)

index-append :
    (s t : Text) → Lacks b':' s → index (s ++ (codes ":2," ++ t)) (codes ":2,") ≡ some (length s)
unfolding index has_prefix
index-append [] t h = refl
index-append (c ∷ s) t h = ground (arith, index-append s t h.1)

split_flags-plain : (name : Text) → Lacks b':' name → split_flags name ≡ (name, [])
unfolding split_flags
split_flags-plain name h = rw (index-none name h, split_flags)

drop-add : (s t : Text) (k : ℕ) → drop (length s + k) (s ++ t) ≡ drop k t
unfolding drop
drop-add [] t k = rw zero-add
drop-add (c ∷ s) t k =
    let e : suc (length s) + k ≡ suc (length s + k) = omega arith in rw e (drop-add s t k)

pub split_flags-suffix :
    (key letters : Text)
    → Lacks b':' key
    → split_flags (key ++ (codes ":2," ++ letters)) ≡ (key, letters)
unfolding split_flags
split_flags-suffix key letters h =
    rw (index-append key letters h, split_flags)
      (ap₂ (λ (k l : Text). let p : Text × Text = (k, l) in p)
        (take-length_append key (codes ":2," ++ letters)) (drop-add key (codes ":2," ++ letters) 3))

-- A name with a flag suffix is split into the key and the letters of `SetFlags`, and a name that
-- `uniqueName` made is all key, with no flags. Random bytes are below 256.
split_flags-names :
    (key flags : Text) (clock : ℕ) (r : List ℕ) (pid n : ℕ) (h : Option Text)
    → Lacks b':' key
    → All (λ b. b < 256) r
    → (split_flags (flagged_name key flags) ≡ (key, normalize_flags flags))
      × (split_flags (unique_name clock r pid n h) ≡ (unique_name clock r pid n h, []))
unfolding flagged_name
split_flags-names key flags clock r pid n h k bytes = (
  split_flags-suffix key (normalize_flags flags) k,
  split_flags-plain _ (unique_name-Lacks clock r pid n h bytes),
)

-- `SetFlags` writes each of the five letters exactly when it is asked for, and no other letter.
has_flag-normalize :
    (flags : Text) (letter : ℕ)
    → has_flag (normalize_flags flags) letter
      ≡ (has_flag flag_letters letter && has_flag flags letter)
unfolding normalize_flags
has_flag-normalize flags letter = go flag_letters
  where
    go :
        (ls : Text)
        → has_flag (keep (λ l. has_flag flags l) ls) letter
          ≡ (has_flag ls letter && has_flag flags letter)
    go [] = refl
    go (l ∷ ls) = ground (arith, go ls)
