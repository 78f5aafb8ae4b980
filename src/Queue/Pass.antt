-- ===== src/Queue/Pass.antt =====
-- internal/queue/queue.go: a whole `processAll` pass, against what it means for one message.
use mailroom.Prelude.{
  Bool-cases, List, Option, Text, Unique, [], arith, false, inl, inr, lookup, map, nat_eq, none,
  refl, some, subst, text_beq_iff, text_eq, true, ◌==◌, ◌∙◌, ◌∷◌, ◌≡◌,
}
use mailroom.Queue.{Item, Settings, Spool, World, process_all, turn, turns}
use mailroom.Queue.Attempt.{Ends, Ends-after, Ends-map}
use mailroom.Queue.Turn.{
  Effect, Effect-IsFiled, Effect-Moved, Effect-Sound, IsFiled, Moved, Sound, View, next_view,
  turn-Effect, view,
}

module _ (q : Settings) (w : World) where
  -- A turn of `id` before those of the entries of `m`.
  turn-first :
      (id j : Text) (entry : Option Item) (m : List (Text × Option Item)) (s t r : Spool)
      → lookup id m ≡ none
      → Moved q w id s j t
      → view j r ≡ elim (lookup j m) [ none ↦ view j t | some _ ↦ next_view q w (view j t) ]
      → view j r
        ≡ elim (lookup j ((id, entry) ∷ m)) [ none ↦ view j s | some _ ↦ next_view q w (view j s) ]
  unfolding lookup
  turn-first id j entry m s t r fresh moved rest = elim (Bool-cases (id == j)) [
    | inl same ↦
        let absent : lookup j m ≡ none =
          subst (λ i. lookup i m ≡ none) ((text_beq_iff id j).0 same) fresh in
        rw (same) (first same absent)
    | inr other ↦ rw (other) (later other)
  ]
    where
      first : (id == j) ≡ true → lookup j m ≡ none → view j r ≡ next_view q w (view j s)
      first same absent = ground (arith, same, absent, rest, moved)

      later :
          (id == j) ≡ false
          → view j r ≡ elim (lookup j m) [ none ↦ view j s | some _ ↦ next_view q w (view j s) ]
      later other = ground (arith, other, rest, moved)

  -- The turns of the entries of `m`, a listing of the directory.
  turns-view :
      (j : Text) (m : List (Text × Option Item)) (s : Spool)
      → ¬ (q.retry_intervals ≡ [])
      → IsFiled s
      → Unique m
      → Ends (turns q w (map (λ p. p.0) m) s) (λ t _.
        view j t ≡ elim (lookup j m) [ none ↦ view j s | some _ ↦ next_view q w (view j s) ])
  unfolding turns lookup
  turns-view j [] s ne filed u = refl
  turns-view j ((id, entry) ∷ m) s ne filed u =
      Ends-after (turn q w id s) (turns q w (map (λ p. p.0) m)) (Effect q w id s)
        (λ t. view j t ≡ elim (lookup j ((id, entry) ∷ m)) [
          | none ↦ view j s
          | some _ ↦ next_view q w (view j s)
        ])
        (turn-Effect q w id s ne filed)
        (λ t e.
          Ends-map (turns q w (map (λ p. p.0) m) t)
            (λ r.
              view j r ≡ elim (lookup j m) [ none ↦ view j t | some _ ↦ next_view q w (view j t) ])
            (λ r. view j r ≡ elim (lookup j ((id, entry) ∷ m)) [
              | none ↦ view j s
              | some _ ↦ next_view q w (view j s)
            ])
            (turns-view j m t ne (Effect-IsFiled q w id s t filed e) u.1)
            (λ r. turn-first id j entry m s t r u.0 (Effect-Moved q w id j s t e)))

  -- What is not in the directory is not changed.
  skipped :
      (o : Option (Option Item)) (body : Option Text)
      → (elim o as (λ _. View) [ none ↦ (o, body) | some _ ↦ next_view q w (o, body) ])
        ≡ next_view q w (o, body)
  unfolding next_view
  skipped none body = refl
  skipped (some entry) body = refl

  -- A pass over the spool returns, where there is an interval to wait, and does to each message what
  -- `next_view` says of that message alone, whatever becomes of the others. Each item is stored once,
  -- under its own identifier.
  pub process_all_lem :
      (j : Text) (s : Spool)
      → ¬ (q.retry_intervals ≡ [])
      → IsFiled s
      → Unique s.items
      → Ends (process_all q w s) (λ t _. view j t ≡ next_view q w (view j s))
  unfolding process_all next_view
  process_all_lem j s ne filed u =
      Ends-map (process_all q w s)
        (λ t.
          view j t
          ≡ elim (lookup j s.items) [ none ↦ view j s | some _ ↦ next_view q w (view j s) ])
        (λ t. view j t ≡ next_view q w (view j s)) (turns-view j s.items s ne filed u)
        (λ t e. e ∙ skipped (lookup j s.items) (lookup j s.bodies))

  turns-Sound :
      (ids : List Text) (s : Spool)
      → ¬ (q.retry_intervals ≡ [])
      → Sound q w s
      → Ends (turns q w ids s) (λ t _. Sound q w t)
  unfolding turns
  turns-Sound [] s ne wf = wf
  turns-Sound (id ∷ ids) s ne wf =
      Ends-after (turn q w id s) (turns q w ids) (Effect q w id s) (Sound q w)
        (turn-Effect q w id s ne wf.0) (λ t e. turns-Sound ids t ne (Effect-Sound q w id s t wf e))

  pub process_all-Sound :
      (s : Spool)
      → ¬ (q.retry_intervals ≡ [])
      → Sound q w s
      → Ends (process_all q w s) (λ t _. Sound q w t)
  unfolding process_all
  process_all-Sound s ne wf = turns-Sound (map (λ p. p.0) s.items) s ne wf
