-- ===== src/Imap/Mailbox/Expunge.antt =====
-- internal/imapbackend/mailbox.go: the sequence numbers that an expunge queues, and ranges of them.
use mathlib.Core.List.{append_assoc, reverse-append}
use mailroom.Prelude.{
  Bool, Bool-cases, List, [], ap, arith, inl, inr, keep, length, length-append, nat_eq, not, refl,
  reverse, suc, sym, text_eq, zero, ℕ, ◌++◌, ◌+◌, ◌∙◌, ◌∷◌, ◌≡◌, ◌≤◌, ◌⊎◌,
}
use mailroom.Imap.{Message}
use mailroom.Imap.Mailbox.{expunge_from, expunge_locked, static_num_range}

-- What the expunge of a sequence number means (RFC 3501): the message of that number is dropped, and
-- those after it move down by one.
abbrev pub drop_seq : ℕ → List Message → List Message
drop_seq n [] = []
drop_seq zero ms = ms
drop_seq (suc zero) (m ∷ ms) = ms
drop_seq (suc (suc n)) (m ∷ ms) = m ∷ drop_seq (suc n) ms

abbrev pub drop_seqs : List ℕ → List Message → List Message
drop_seqs [] ms = ms
drop_seqs (n ∷ nums) ms = drop_seqs nums (drop_seq n ms)

drop_seqs-snoc :
    (nums : List ℕ) (n : ℕ) (ms : List Message)
    → drop_seqs (nums ++ n ∷ []) ms ≡ drop_seq n (drop_seqs nums ms)
drop_seqs-snoc [] n ms = refl
drop_seqs-snoc (k ∷ nums) n ms = drop_seqs-snoc nums n (drop_seq k ms)

drop_seq-length :
    (front : List Message) (m : Message) (back : List Message)
    → drop_seq (suc (length front)) (front ++ m ∷ back) ≡ front ++ back
drop_seq-length [] m back = refl
drop_seq-length (x ∷ front) m back = ap (λ l. x ∷ l) (drop_seq-length front m back)

drop_at :
    (front : List Message) (m : Message) (back : List Message) (n : ℕ)
    → n ≡ suc (length front)
    → drop_seq n (front ++ m ∷ back) ≡ front ++ back
drop_at front m back n e = rw (e) (drop_seq-length front m back)

expunge_from-drops :
    (gone : Message → Bool) (front ms : List Message) (i : ℕ)
    → i ≡ length front
    → drop_seqs (expunge_from gone i ms).0 (front ++ ms) ≡ front ++ keep (λ m. not (gone m)) ms
unfolding expunge_from keep
expunge_from-drops gone front [] i e = refl
expunge_from-drops gone front (m ∷ ms) i e =
    let size : i + 1 ≡ length (front ++ m ∷ []) =
      rw (length-append front (m ∷ []), e) (omega arith) in
    let rest = expunge_from-drops gone (front ++ m ∷ []) ms (i + 1) size in
    let back = (expunge_from gone (i + 1) ms).0 in
    let moved : drop_seqs back (front ++ m ∷ ms) ≡ front ++ m ∷ keep (λ x. not (gone x)) ms =
      rw
        (
          sym (append_assoc front (m ∷ []) ms),
          sym (append_assoc front (m ∷ []) (keep (λ x. not (gone x)) ms)),
        )
        rest in
    elim (Bool-cases (gone m)) [
      | inl out ↦
          rw (expunge_from, out, drop_seqs-snoc back (i + 1) (front ++ m ∷ ms), moved)
            (drop_at front m (keep (λ x. not (gone x)) ms) (i + 1) (rw (e) (omega arith)))
      | inr stays ↦ rw (expunge_from, stays) moved
    ]

expunge_from-keeps :
    (gone : Message → Bool) (i : ℕ) (ms : List Message)
    → reverse (expunge_from gone i ms).1 ≡ keep (λ m. not (gone m)) ms
unfolding expunge_from keep
expunge_from-keeps gone i [] = refl
expunge_from-keeps gone i (m ∷ ms) = elim (Bool-cases (gone m)) [
  | inl out ↦ rw (expunge_from, out) (expunge_from-keeps gone (i + 1) ms)
  | inr stays ↦
      rw (expunge_from, stays)
        (reverse-append (expunge_from gone (i + 1) ms).1 (m ∷ [])
          ∙ ap (λ l. m ∷ l) (expunge_from-keeps gone (i + 1) ms))
]

-- expungeLocked keeps the other messages in their order, and the numbers that it queues with the
-- tracker, dropped one after another from the list before it, give the same list.
pub expunge_locked_lem :
    (gone : Message → Bool) (ms : List Message)
    → ((expunge_locked gone ms).1 ≡ keep (λ m. not (gone m)) ms)
      × (drop_seqs (expunge_locked gone ms).0 ms ≡ (expunge_locked gone ms).1)
unfolding expunge_locked
expunge_locked_lem gone ms =
    let kept = expunge_from-keeps gone 0 ms in
    (kept, expunge_from-drops gone [] ms 0 refl ∙ sym kept)

-- A range with "*" in it, which 0 stands for, is resolved to one that is in order and ends within the
-- mailbox, where its other end is within it; a range without "*" is left as it is.
static_num_range-bounds :
    (max start stop : ℕ)
    → start ≤ max
    → stop ≤ max
    → let (low, high) = static_num_range max (start, stop) in
      (low ≤ max)
      × (high ≤ max)
      × (((start ≡ 0) ⊎ (stop ≡ 0)) × (low ≤ high) ⊎ (low ≡ start) × (high ≡ stop))
unfolding static_num_range
static_num_range-bounds max start stop a b = ground (arith, a, b)
