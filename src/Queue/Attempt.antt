-- ===== src/Queue/Attempt.antt =====
-- internal/queue/queue.go: what one `attempt` may do to an item.
use mailroom.Prelude.{
  Bool-cases, In, List, Option, Option-cases, Text, [], arith, false, get_elem?, inl, inr, lookup,
  lookup-insert, lookup-remove, ltb, ltb→lt, nat_eq, none, refl, same_refl, some, suc, text_eq,
  true, zero, ℕ, ◌+◌, ◌-◌, ◌<◌, ◌∷◌, ◌≡◌, ◌≤◌, ◌⊎◌,
}
use mailroom.Queue.{
  Bounce, Item, Outcome, Settings, Spool, after_turn, attempt, conclude, done, drop_item,
  failed_item, fate, last_of, panic, retry_delay, save,
}
use mailroom.Queue.Relay.{Failure, is_permanent, message}

-- The call returns, with a spool and bounces that have the property.
abbrev pub Ends : Outcome → (Spool → List Bounce → Type 0) → Type 0
Ends panic P = ⊥
Ends (done s bounces) P = P s bounces

pub Ends-after :
    (o : Outcome) (next : Spool → Outcome) (P Q : Spool → Type 0)
    → Ends o (λ s _. P s)
    → ((s : Spool) → P s → Ends (next s) (λ t _. Q t))
    → Ends (after_turn o next) (λ t _. Q t)
unfolding after_turn
Ends-after panic next P Q h f = h
Ends-after (done s bounces) next P Q h f = more (next s) (f s h)
  where
    more :
        (o : Outcome)
        → Ends o (λ t _. Q t)
        → Ends (after_turn (done s bounces) (λ _. o)) (λ t _. Q t)
    more panic g = g
    more (done t others) g = g

pub Ends-map :
    (o : Outcome) (P Q : Spool → Type 0)
    → Ends o (λ s _. P s)
    → ((s : Spool) → P s → Q s)
    → Ends o (λ s _. Q s)
Ends-map panic P Q h f = h
Ends-map (done s bounces) P Q h f = f s h

pub Ends-both :
    (o : Outcome) (P Q : Spool → Type 0)
    → Ends o (λ s _. P s)
    → Ends o (λ s _. Q s)
    → Ends o (λ s _. P s × Q s)
Ends-both panic P Q h g = h
Ends-both (done s bounces) P Q h g = (h, g)

-- The item is tried again: it keeps its addresses and its body, the attempt is counted within the
-- maximum, and the next one is one of the intervals after this one ended.
abbrev pub Retried : Settings → ℕ → Item → Text → Failure → Spool → List Bounce → Type 0
Retried q now item content e t bounces =
    ((later : Item) × (lookup item.id t.items ≡ some (some later))
      × (later.to ≡ item.to)
      × (later.from ≡ item.from)
      × (later.attempts ≡ item.attempts + 1)
      × (later.attempts ≤ q.max_retries)
      × ((d : ℕ) × In d q.retry_intervals × (later.next_attempt ≡ now + d)))
    × (lookup item.id t.bodies ≡ some content)
    × (bounces ≡ [])
    × (is_permanent e ≡ false)

-- The item is gone, and was handed to OnPermanentFailure with the reason, for a permanent failure
-- or one past the maximum.
abbrev pub GivenUp : Settings → Item → Text → Failure → Spool → List Bounce → Type 0
GivenUp q item content e t bounces =
    (lookup item.id t.items ≡ none)
    × (lookup item.id t.bodies ≡ none)
    × (q.bounces ≡ true
        → bounces
          ≡ record { item = failed_item item e; content = content; reason = message e } ∷ [])
    × ((is_permanent e ≡ true) ⊎ (q.max_retries < item.attempts + 1))

last_of-In : (xs : List ℕ) → ¬ (xs ≡ []) → ((d : ℕ) × (last_of xs ≡ some d) × In d xs)
unfolding last_of
last_of-In [] ne = elim (ne refl) [ ]
last_of-In (x ∷ []) ne = (x, refl, inl refl)
last_of-In (x ∷ y ∷ xs) ne = let (d, e, i) = last_of-In (y ∷ xs) (λ h. cc) in (d, e, inr i)

get_elem-In : (xs : List ℕ) (i d : ℕ) → get_elem? xs i ≡ some d → In d xs
get_elem-In [] i d h = cc
get_elem-In (x ∷ xs) zero d h = inl (cc)
get_elem-In (x ∷ xs) (suc i) d h = inr (get_elem-In xs i d h)

pub retry_delay-In :
    (xs : List ℕ) (n : ℕ) → ¬ (xs ≡ []) → ((d : ℕ) × (retry_delay xs n ≡ some d) × In d xs)
unfolding retry_delay
retry_delay-In xs n ne =
    let (d, e, i) = last_of-In xs ne in
    elim (Option-cases (get_elem? xs (n - 1))) [
      | inl h ↦ (d, rw (retry_delay, e, h), i)
      | inr (x, h) ↦ (x, rw (retry_delay, e, h), get_elem-In xs (n - 1) x h)
    ]

pub gone : (item : Item) (s : Spool) → lookup item.id (drop_item item.id s).items ≡ none
unfolding drop_item
gone item s = rw (lookup-remove item.id item.id s.items, same_refl item.id)

pub gone_body : (item : Item) (s : Spool) → lookup item.id (drop_item item.id s).bodies ≡ none
unfolding drop_item
gone_body item s = rw (lookup-remove item.id item.id s.bodies, same_refl item.id)

-- What follows a failed delivery.
settled :
    (q : Settings) (now : ℕ) (item : Item) (s : Spool) (content : Text) (e : Failure)
    → ¬ (q.retry_intervals ≡ [])
    → lookup item.id s.bodies ≡ some content
    → Ends
        (conclude q (failed_item item e) content e s (fate q now (failed_item item e) e))
        (λ t bounces. Retried q now item content e t bounces ⊎ GivenUp q item content e t bounces)
unfolding fate conclude failed_item drop_item save
settled q now item s content e ne h = elim (Bool-cases (is_permanent e)) [
  | inl p ↦ rw (p) (inr (gone item s, gone_body item s, (λ b. rw (b)), inl refl))
  | inr p ↦ elim (Bool-cases (ltb q.max_retries (item.attempts + 1))) [
    | inl past ↦
        rw (p, past)
          (inr (
            gone item s,
            gone_body item s,
            (λ b. rw (b)),
            inr (ltb→lt q.max_retries (item.attempts + 1) past),
          ))
    | inr within ↦
        let (d, delay, i) = retry_delay-In q.retry_intervals (item.attempts + 1) ne in
        rw (p, within, delay)
          (inl (
            (
              record (failed_item item e) { next_attempt = now + d },
              rw (
                lookup-insert item.id item.id
                    (some (record (failed_item item e) { next_attempt = now + d })) s.items,
                same_refl item.id,
              ),
              refl,
              refl,
              refl,
              ground (arith, within),
              (d, i, refl),
            ),
            h,
            refl,
            refl,
          ))
  ]
]

-- One attempt at an item whose body is in the spool returns, where there is an interval to wait: a
-- delivered item is gone without a bounce; a failed one is kept with its body for another attempt
-- within the maximum, or is gone and bounced with its content, and it is given up only for a
-- permanent failure or past the maximum.
pub attempt_lem :
    (q : Settings) (send : Item → Text → Option Failure) (now : ℕ) (item : Item) (s : Spool)
    (content : Text)
    → ¬ (q.retry_intervals ≡ [])
    → lookup item.id s.bodies ≡ some content
    → Ends (attempt q send now item s) (λ t bounces. elim (send item content) [
      | none ↦ (lookup item.id t.items ≡ none) × (lookup item.id t.bodies ≡ none) × (bounces ≡ [])
      | some e ↦ Retried q now item content e t bounces ⊎ GivenUp q item content e t bounces
    ])
unfolding attempt
attempt_lem q send now item s content ne h = elim (Option-cases (send item content)) [
  | inl sent ↦ rw (attempt, h, sent) (gone item s, gone_body item s, refl)
  | inr (e, failed) ↦ rw (attempt, h, failed) (settled q now item s content e ne h)
]
