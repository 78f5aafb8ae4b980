-- ===== src/Queue/Expiry.antt =====
-- internal/queue/queue.go: how many passes a message can stay for.
use mailroom.Queue.Turn.{IsFiled, Sound, View, after_fate, next_view, view}
use mailroom.Queue.Attempt.{Ends, Ends-after, Ends-both, Ends-map, gone, retry_delay-In}
use mailroom.Queue.Relay.{is_permanent}
use mailroom.Prelude.{
  Bool-cases, List, Option, Option-cases, Text, Unique, [], all, ap, arith, false, inl, inr, length,
  lookup, ltb, nat_eq, none, refl, some, subst, text_eq, ◌+◌, ◌<◌, ◌∙◌, ◌∷◌, ◌≡◌, ◌≤◌, ◌⊎◌,
}
use mailroom.Queue.{Item, Settings, Spool, World, failed_item, fate, process_all, run}
use mailroom.Queue.Pass.{process_all_lem, process_all-Sound}

-- The message is not waiting for a later time.
abbrev pub Due : World → View → Type 0
Due w (some (some item), body) = item.next_attempt ≤ w.now
Due w (some none, body) = Unit
Due w (none, body) = Unit

-- The specification of passes one after another.
unfoldable pub views : Settings → List World → View → View
unfolding next_view
views q [] v = v
views q (w ∷ ws) v = views q ws (next_view q w v)

-- Each pass finds the message due, if it is there.
abbrev pub AllDue : Settings → List World → View → Type 0
AllDue q [] v = Unit
AllDue q (w ∷ ws) v = Due w v × AllDue q ws (next_view q w v)

-- A due message is gone after a pass, or is there with one attempt more, within the maximum.
next_view-cases :
    (q : Settings) (w : World) (item : Item) (body : Option Text)
    → ¬ (q.retry_intervals ≡ [])
    → item.next_attempt ≤ w.now
    → (next_view q w (some (some item), body) ≡ (none, none))
      ⊎ ((kept : Item) × (next_view q w (some (some item), body) ≡ (some (some kept), body))
          × (kept.attempts ≡ item.attempts + 1)
          × (kept.attempts ≤ q.max_retries))
unfolding next_view after_fate fate failed_item
next_view-cases q w item none ne due = inl (ground (arith, due))
next_view-cases q w item (some content) ne due =
    let (d, delay, i) = retry_delay-In q.retry_intervals (item.attempts + 1) ne in
    let now : ltb w.now item.next_attempt ≡ false = ground (arith, due) in
    elim (Option-cases (w.deliver item content)) [
      | inl ok ↦ inl (rw (next_view, now, ok) refl)
      | inr (e, failed) ↦ elim (Bool-cases (is_permanent e)) [
        | inl p ↦ inl (rw (next_view, now, failed, fate, p) refl)
        | inr p ↦ elim (Bool-cases (ltb q.max_retries (item.attempts + 1))) [
          | inl past ↦ inl (rw (next_view, now, failed, fate, p, past) refl)
          | inr within ↦ inr (
            record (failed_item item e) { next_attempt = w.finished item + d },
            rw (next_view, now, failed, fate, p, within, delay) refl,
            refl,
            ground (arith, within),
          )
        ]
      ]
    ]

views-gone : (q : Settings) (ws : List World) → views q ws (none, none) ≡ (none, none)
unfolding views next_view
views-gone q [] = refl
views-gone q (w ∷ ws) = views-gone q ws

views-expire :
    (q : Settings) (ws : List World) (item : Item) (body : Option Text)
    → ¬ (q.retry_intervals ≡ [])
    → AllDue q ws (some (some item), body)
    → item.attempts ≤ q.max_retries
    → q.max_retries < item.attempts + length ws
    → views q ws (some (some item), body) ≡ (none, none)
unfolding views length
views-expire q [] item body ne due bound enough =
    let no : ⊥ = omega (arith, bound, enough) in elim no [ ]
views-expire q (w ∷ ws) item body ne (due, all) bound enough =
    elim (next_view-cases q w item body ne due) [
      | inl gone ↦ rw (views, gone) (views-gone q ws)
      | inr (kept, e, counted, within) ↦
          rw (views, e)
            (views-expire q ws kept body ne (rw (e) at all) within (omega (arith, enough, counted)))
    ]

run-view :
    (q : Settings) (ws : List World) (j : Text) (s : Spool)
    → ¬ (q.retry_intervals ≡ [])
    → IsFiled s
    → Unique s.items
    → Ends (run q ws s) (λ t _. view j t ≡ views q ws (view j s))
unfolding run views
run-view q [] j s ne filed u = refl
run-view q (w ∷ ws) j s ne filed u =
    Ends-after (process_all q w s) (run q ws)
      (λ t. Sound q w t × (view j t ≡ next_view q w (view j s)))
      (λ t. view j t ≡ views q (w ∷ ws) (view j s))
      (Ends-both (process_all q w s) (Sound q w) (λ t. view j t ≡ next_view q w (view j s))
        (process_all-Sound q w s ne (filed, u)) (process_all_lem q w j s ne filed u))
      (λ t h.
        subst (λ v. Ends (run q ws t) (λ r _. view j r ≡ views q ws v)) h.1
          (run-view q ws j t ne h.0.0 h.0.1))

-- A message does not stay for ever: where every pass finds it due while it is there, it is gone, with
-- its body, after at most one pass more than the attempts that the maximum still leaves; and the
-- queue runs through those passes, whatever other messages it holds. There is an interval to wait,
-- the item has no more attempts than the maximum, and each item is stored once, under its own
-- identifier.
pub run-expires :
    (q : Settings) (ws : List World) (s : Spool) (item : Item)
    → ¬ (q.retry_intervals ≡ [])
    → IsFiled s
    → Unique s.items
    → lookup item.id s.items ≡ some (some item)
    → AllDue q ws (view item.id s)
    → item.attempts ≤ q.max_retries
    → q.max_retries < item.attempts + length ws
    → Ends (run q ws s) (λ t _. (lookup item.id t.items ≡ none) × (lookup item.id t.bodies ≡ none))
run-expires q ws s item ne filed u there due bound enough =
    let end : views q ws (view item.id s) ≡ (none, none) =
      rw (there)
        (views-expire q ws item (lookup item.id s.bodies) ne (rw (there) at due) bound enough) in
    Ends-map (run q ws s) (λ t. view item.id t ≡ views q ws (view item.id s))
      (λ t. (lookup item.id t.items ≡ none) × (lookup item.id t.bodies ≡ none))
      (run-view q ws item.id s ne filed u)
      (λ t h. (ap (λ (v : View). v.0) (h ∙ end), ap (λ (v : View). v.1) (h ∙ end)))
