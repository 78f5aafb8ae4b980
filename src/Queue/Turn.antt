-- ===== src/Queue/Turn.antt =====
-- internal/queue/queue.go: one turn of `processAll`, against what it means for one message.
use mailroom.Queue.Relay.{Failure}
use mailroom.Prelude.{
  Bool-cases, Option, Option-cases, Text, Unique, [], ap, arith, false, if◌then◌else◌, inl, inr,
  insert-Unique, lookup, lookup-insert, lookup-remove, ltb, nat_eq, none, refl, remove-Unique, some,
  subst, text_beq_iff, text_eq, ℕ, ◌+◌, ◌==◌, ◌∙◌, ◌≡◌, ◌⊎◌,
}
use mailroom.Queue.{
  Fate, Item, Settings, Spool, World, attempt, conclude, crash, drop_item, failed_item, fate,
  given_up, load, retried, save, turn,
}
use mailroom.Queue.Attempt.{Ends, retry_delay-In}

-- The spool of one message: its item and its body.
abbrev pub View : Type 0
View = Option (Option Item) × Option Text

abbrev pub view : Text → Spool → View
view id s = (lookup id s.items, lookup id s.bodies)

-- Every item is stored under its own identifier, as `save` does.
abbrev pub IsFiled : Spool → Type 0
IsFiled s = (id : Text) (item : Item) → lookup id s.items ≡ some (some item) → item.id ≡ id

unfoldable pub after_fate : Item → Text → Fate → View
after_fate item content given_up = (none, none)
after_fate item content crash = (some (some item), some content)
after_fate item content (retried later) = (some (some later), some content)

-- The specification of a pass for one message: an item that is not due stays; one that is due is
-- gone where its body is missing, where it is delivered or where it is given up, and is else saved.
unfoldable pub next_view : Settings → World → View → View
unfolding after_fate
next_view q w (some (some item), body) =
    if ltb w.now item.next_attempt then (some (some item), body) else elim body [
      | none ↦ (none, none)
      | some content ↦ elim (w.deliver item content) [
        | none ↦ (none, none)
        | some e ↦ after_fate item content (fate q (w.finished item) (failed_item item e) e)
      ]
    ]
next_view q w (some none, body) = (some none, body)
next_view q w (none, body) = (none, body)

-- What becomes of the message `j` in the turn of `id`.
abbrev pub Moved : Settings → World → Text → Spool → Text → Spool → Type 0
Moved q w id s j t = view j t ≡ (if id == j then next_view q w (view j s) else view j s)

module _ (q : Settings) (w : World) where
  view-drop_item :
      (id j : Text) (s : Spool)
      → view j (drop_item id s) ≡ (if id == j then (none, none) else view j s)
  unfolding drop_item
  view-drop_item id j s =
      rw (lookup-remove id j s.items, lookup-remove id j s.bodies) (ground arith)

  view-save :
      (item : Item) (j : Text) (s : Spool)
      → view j (save item s)
        ≡ (if item.id == j then (some (some item), lookup j s.bodies) else view j s)
  unfolding save
  view-save item j s = rw (lookup-insert item.id j (some item) s.items) (ground arith)

  fate-retried :
      (now : ℕ) (item later : Item) (e : Failure)
      → fate q now item e ≡ retried later
      → later.id ≡ item.id
  unfolding fate
  fate-retried now item later e h = ground (arith, h)

  -- The three things that a turn can do to the spool, each as the specification says.
  abbrev pub Effect : Text → Spool → Spool → Type 0
  Effect id s t =
      ((t ≡ s) × (next_view q w (view id s) ≡ view id s))
      ⊎ ((t ≡ drop_item id s) × (next_view q w (view id s) ≡ (none, none)))
      ⊎ ((later : Item) × (t ≡ save later s)
          × (later.id ≡ id)
          × (next_view q w (view id s) ≡ (some (some later), lookup id s.bodies)))

  failed-Effect :
      (now : ℕ) (item : Item) (content : Text) (e : Failure) (id : Text) (s : Spool) (f : Fate)
      → ¬ (q.retry_intervals ≡ [])
      → item.id ≡ id
      → lookup id s.bodies ≡ some content
      → fate q now (failed_item item e) e ≡ f
      → next_view q w (view id s) ≡ after_fate item content f
      → Ends (conclude q (failed_item item e) content e s f) (λ t _. Effect id s t)
  unfolding conclude fate after_fate failed_item
  failed-Effect now item content e id s given_up ne own body h spec =
      inr (inl (rw (own) refl, spec))
  failed-Effect now item content e id s crash ne own body h spec =
      let (d, delay, i) = retry_delay-In q.retry_intervals (item.attempts + 1) ne in
      ground (arith, h, delay)
  failed-Effect now item content e id s (retried later) ne own body h spec = inr (
      inr
        (later, refl, fate-retried now (failed_item item e) later e h ∙ own, spec ∙ rw (body) refl))

  attempt-Effect :
      (item : Item) (s : Spool)
      → ¬ (q.retry_intervals ≡ [])
      → lookup item.id s.items ≡ some (some item)
      → ltb w.now item.next_attempt ≡ false
      → Ends (attempt q w.deliver (w.finished item) item s) (λ t _. Effect item.id s t)
  unfolding attempt next_view
  attempt-Effect item s ne stored due = elim (Option-cases (lookup item.id s.bodies)) [
    | inl lost ↦ rw (attempt, lost) (inr (inl (refl, rw (stored, due) refl)))
    | inr (content, body) ↦ elim (Option-cases (w.deliver item content)) [
      | inl sent ↦ rw (attempt, body, sent) (inr (inl (refl, rw (stored, due, sent) refl)))
      | inr (e, failed) ↦
          let ended : attempt q w.deliver (w.finished item) item s
              ≡ conclude q (failed_item item e) content e s
                  (fate q (w.finished item) (failed_item item e) e) =
            rw (attempt, body, failed) refl in
          rw (ended) (
            failed-Effect (w.finished item) item content e item.id s
              (fate q (w.finished item) (failed_item item e) e) ne refl body refl
              (rw (stored, body, due, failed) refl))
    ]
  ]

  pub turn-Effect :
      (id : Text) (s : Spool)
      → ¬ (q.retry_intervals ≡ [])
      → IsFiled s
      → Ends (turn q w id s) (λ t _. Effect id s t)
  unfolding turn load next_view
  turn-Effect id s ne filed = elim (Option-cases (lookup id s.items)) [
    | inl absent ↦ rw (turn, load, absent) (inl (refl, refl))
    | inr (none, h) ↦ rw (turn, load, h) (inl (refl, refl))
    | inr (some item, stored) ↦ elim (Bool-cases (ltb w.now item.next_attempt)) [
      | inl early ↦ rw (turn, load, stored, early) (inl (refl, refl))
      | inr due ↦
          let own = filed id item stored in
          subst (λ i. Ends (turn q w id s) (λ t _. Effect i s t)) own
            (rw (turn, load, stored, due)
              (attempt-Effect item s ne (ap (λ i. lookup i s.items) own ∙ stored) due))
    ]
  ]

  pub Effect-Moved : (id j : Text) (s t : Spool) → Effect id s t → Moved q w id s j t
  Effect-Moved id j s t (inl (e, spec)) = rw (e) (ground (arith, text_beq_iff id j, spec))
  Effect-Moved id j s t (inr (inl (e, spec))) =
      rw (e, view-drop_item id j s) (ground (arith, text_beq_iff id j, spec))
  Effect-Moved id j s t (inr (inr (later, e, own, spec))) =
      rw (e, view-save later j s, own) (ground (arith, text_beq_iff id j, spec))

  pub Effect-IsFiled : (id : Text) (s t : Spool) → IsFiled s → Effect id s t → IsFiled t
  unfolding drop_item save
  Effect-IsFiled id s t filed (inl (e, spec)) = rw (e) filed
  Effect-IsFiled id s t filed (inr (inl (e, spec))) =
      rw (e)
        (λ j item h. ground (arith, text_beq_iff id j, h, lookup-remove id j s.items, filed j item))
  Effect-IsFiled id s t filed (inr (inr (later, e, own, spec))) = rw (e) (λ j item h. ground (
    arith,
    text_beq_iff later.id j,
    h,
    lookup-insert later.id j (some later) s.items,
    filed j item,
    own,
  ))

  -- What the turns need of the spool, and leave of it.
  abbrev pub Sound : Spool → Type 0
  Sound s = IsFiled s × Unique s.items

  pub Effect-Sound : (id : Text) (s t : Spool) → Sound s → Effect id s t → Sound t
  unfolding drop_item save
  Effect-Sound id s t (filed, u) (inl (e, spec)) = rw (e) (filed, u)
  Effect-Sound id s t (filed, u) (inr (inl (e, spec))) =
      (Effect-IsFiled id s t filed (inr (inl (e, spec))), rw (e) (remove-Unique id s.items u))
  Effect-Sound id s t (filed, u) (inr (inr (later, e, own, spec))) = (
    Effect-IsFiled id s t filed (inr (inr (later, e, own, spec))),
    rw (e) (insert-Unique later.id (some later) s.items u),
  )
