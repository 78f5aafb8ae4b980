-- ===== src/Imap/Search/Results.antt =====
-- internal/imapbackend/mailbox.go: the answer of SEARCH.
use mailroom.Prelude.{
  All, All-append, Bool, Bool-cases, In, List, [], ap, arith, if◌then◌else◌, inl, inr, length,
  length-append, ltb, nat_eq, refl, suc, sym, true, false, ℕ, ◌+◌, ◌++◌, ◌<◌, ◌==◌, ◌||◌, ◌∙◌, ◌∷◌,
  ◌≡◌, ◌≤◌, ◌⊎◌, subst,
}
use mailroom.Imap.{Message}
use mailroom.Imap.Session.{View}
use mailroom.Imap.Search.{
  Criteria, NumKind, Reading, SearchData, add_match, add_number, by_seq, by_uid, no_data,
  search_all, search_mailbox, search, static_criteria,
}

-- Between the two numbers.
abbrev pub Between : ℕ → ℕ → ℕ → Type 0
Between low high n = (low ≤ n) × (n ≤ high)

-- COUNT is the number of the results, and MIN and MAX are the least and the greatest of them; they are
-- 0 where there are none.
pub record IsSummary (d : SearchData) : Type 0 where
  pub counted : d.count ≡ length d.numbers
  pub bounded : All (Between d.low d.high) d.numbers
  pub reached :
      ((d.numbers ≡ []) × (d.low ≡ 0) × (d.high ≡ 0))
      ⊎ ((0 < d.low) × (0 < d.high) × In d.low d.numbers × In d.high d.numbers)

All-wider :
    (low high low1 high1 : ℕ) (ns : List ℕ)
    → low1 ≤ low
    → high ≤ high1
    → All (Between low high) ns
    → All (Between low1 high1) ns
All-wider low high low1 high1 [] l h all = tt
All-wider low high low1 high1 (n ∷ ns) l h all =
    ((omega (arith, l, all.0), omega (arith, h, all.0)), All-wider low high low1 high1 ns l h all.1)

In-last : (n : ℕ) (ns : List ℕ) → In n (ns ++ n ∷ [])
In-last n [] = inl refl
In-last n (k ∷ ns) = inr (In-last n ns)

In-left : (n k : ℕ) (ns : List ℕ) → In n ns → In n (ns ++ k ∷ [])
In-left n k [] h = absurd h
In-left n k (j ∷ ns) (inl e) = inl e
In-left n k (j ∷ ns) (inr h) = inr (In-left n k ns h)

abbrev least : ℕ → ℕ → ℕ
least low num = if low == 0 || ltb num low then num else low

abbrev greatest : ℕ → ℕ → ℕ
greatest high num = if high == 0 || ltb high num then num else high

least-le :
    (low num : ℕ)
    → 0 < num
    → 0 < low
    → (least low num ≤ low) × (least low num ≤ num) × (0 < least low num)
least-le low num p q = (ground (arith, p, q), ground (arith, p, q), ground (arith, p, q))

greatest-le :
    (high num : ℕ)
    → 0 < num
    → 0 < high
    → (high ≤ greatest high num) × (num ≤ greatest high num) × (0 < greatest high num)
greatest-le high num p q = (ground (arith, p, q), ground (arith, p, q), ground (arith, p, q))

least-In : (low num : ℕ) (ns : List ℕ) → In low ns → In (least low num) (ns ++ num ∷ [])
least-In low num ns h = elim (Bool-cases (low == 0 || ltb num low)) [
  | inl new ↦ rw (new) (In-last num ns)
  | inr old ↦ rw (old) (In-left low num ns h)
]

greatest-In : (high num : ℕ) (ns : List ℕ) → In high ns → In (greatest high num) (ns ++ num ∷ [])
greatest-In high num ns h = elim (Bool-cases (high == 0 || ltb high num)) [
  | inl new ↦ rw (new) (In-last num ns)
  | inr old ↦ rw (old) (In-left high num ns h)
]

add_number-IsSummary :
    (num : ℕ) (d : SearchData) → 0 < num → IsSummary d → IsSummary (add_number num d)
unfolding add_number
add_number-IsSummary num d pos h = go h.reached
  where
    size : suc d.count ≡ length (d.numbers ++ num ∷ [])
    size = ap suc h.counted ∙ sym (length-append d.numbers (num ∷ []) ∙ omega arith)

    go :
        ((d.numbers ≡ []) × (d.low ≡ 0) × (d.high ≡ 0))
          ⊎ ((0 < d.low) × (0 < d.high) × In d.low d.numbers × In d.high d.numbers)
        → IsSummary (add_number num d)
    go (inl (none_yet, low0, high0)) =
        let l : least d.low num ≡ num = rw (low0) refl in
        let g : greatest d.high num ≡ num = rw (high0) refl in
        let one : d.numbers ++ num ∷ [] ≡ num ∷ [] = ap (λ ns. ns ++ num ∷ []) none_yet in
        record {
          counted = size;
          bounded =
              subst (λ ns. All (Between (least d.low num) (greatest d.high num)) ns) (sym one)
                ((omega (arith, l), omega (arith, g)), tt);
          reached = inr (
            omega (arith, l, pos),
            omega (arith, g, pos),
            subst (λ ns. In (least d.low num) ns) (sym one) (inl l),
            subst (λ ns. In (greatest d.high num) ns) (sym one) (inl g),
          );
        }
    go (inr (low_pos, high_pos, low_in, high_in)) =
        let (l, l1, l2) = least-le d.low num pos low_pos in
        let (g, g1, g2) = greatest-le d.high num pos high_pos in
        record {
          counted = size;
          bounded =
              All-append (Between (least d.low num) (greatest d.high num)) d.numbers (num ∷ [])
                (All-wider d.low d.high (least d.low num) (greatest d.high num) d.numbers l g
                  h.bounded)
                ((l1, g1), tt);
          reached = inr (
            l2,
            g2,
            least-In d.low num d.numbers low_in,
            greatest-In d.high num d.numbers high_in,
          );
        }

-- The UIDs change nothing in the summary of the numbers.
with_uid :
    (d : SearchData) (uid : ℕ) → IsSummary d → IsSummary (record d { uids = d.uids ++ uid ∷ [] })
with_uid d uid h = record { counted = h.counted; bounded = h.bounded; reached = h.reached }

add_match-IsSummary :
    (kind : NumKind) (seq_num : ℕ) (m : Message) (d : SearchData)
    → 0 < m.uid
    → IsSummary d
    → IsSummary (add_match kind seq_num m d)
unfolding add_match
add_match-IsSummary by_uid seq_num m d pos h =
    add_number-IsSummary m.uid (record d { uids = d.uids ++ m.uid ∷ [] }) pos (with_uid d m.uid h)
add_match-IsSummary by_seq seq_num m d pos h = elim (Bool-cases (seq_num == 0)) [
  | inl unknown ↦ rw (add_match, unknown) (with_uid d m.uid h)
  | inr known ↦
      rw (add_match, known)
        (add_number-IsSummary seq_num (record d { uids = d.uids ++ m.uid ∷ [] })
          (ground (arith, known)) (with_uid d m.uid h))
]

search_all-IsSummary :
    (v : View) (kind : NumKind) (hits : ℕ → Message → Bool) (i : ℕ) (ms : List Message)
    (d : SearchData)
    → All (λ m. 0 < m.uid) ms
    → IsSummary d
    → IsSummary (search_all v kind hits i ms d)
unfolding search_all
search_all-IsSummary v kind hits i [] d pos h = h
search_all-IsSummary v kind hits i (m ∷ ms) d pos h =
    search_all-IsSummary v kind hits (i + 1) ms
      (if hits (v.encode (i + 1)) m then add_match kind (v.encode (i + 1)) m d else d) pos.1
      (step (hits (v.encode (i + 1)) m))
  where
    step : (b : Bool) → IsSummary (if b then add_match kind (v.encode (i + 1)) m d else d)
    step true = add_match-IsSummary kind (v.encode (i + 1)) m d pos.0 h
    step false = h

-- The answer of SEARCH agrees with itself, whatever the criteria and with sequence numbers as with
-- UIDs: COUNT is the number of the results, all of them lie between MIN and MAX, and both are among
-- them, or are 0 where there is no result. UIDs are positive.
pub search_mailbox-IsSummary :
    (v : View) (day : ℕ → ℕ) (read : Message → Reading) (kind : NumKind) (saved : List (ℕ × ℕ))
    (c : Criteria) (ms : List Message)
    → All (λ m. 0 < m.uid) ms
    → IsSummary (search_mailbox v day read kind saved c ms)
unfolding search_mailbox
search_mailbox-IsSummary v day read kind saved c ms pos =
    search_all-IsSummary v kind
      (λ seq_num m. search v day seq_num m (read m) (static_criteria saved ms c)) 0 ms no_data pos
      (record { counted = refl; bounded = tt; reached = inl (refl, refl, refl) })
