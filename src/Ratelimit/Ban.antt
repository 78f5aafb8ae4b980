-- ===== src/Ratelimit/Ban.antt =====
-- internal/ratelimit/ratelimit.go: when a ban starts, that it lasts, and that none comes early.
use mailroom.Prelude.{
  All, List, Option, Option-cases, Text, [], arith, false, inl, inr, lookup, nat_eq, none, some,
  text_beq_iff, text_eq, ℕ, ◌+◌, ◌<◌, ◌∷◌, ◌≡◌, ◌≢◌, ◌≤◌,
}
use mailroom.Ratelimit.{
  Entry, Event, Limiter, allowed, fail_entry, failure, retained, run, step, success, sweep,
}
use mailroom.Ratelimit.Isolation.{IsMap, entry-step, entry_after, step-IsMap, step_settings}

-- The key is banned until `b` at least.
BannedUntil : ℕ → Option Entry → Type 0
BannedUntil b none = ⊥
BannedUntil b (some e) = b ≤ e.banned_until

-- An event before `b` that is not a success of `key`, and whose own ban would reach `b`.
abbrev pub Stays : Limiter → Text → ℕ → ℕ × Event → Type 0
Stays l key b (now, ev) = (now < b) × (b ≤ now + l.ban_duration) × (ev ≢ success key)

entry_after-BannedUntil :
    (l : Limiter) (key : Text) (b : ℕ) (ev : ℕ × Event) (o : Option Entry)
    → Stays l key b ev
    → BannedUntil b o
    → BannedUntil b (entry_after l ev key o)
unfolding BannedUntil entry_after fail_entry retained
entry_after-BannedUntil l key b ev none st h = absurd h
entry_after-BannedUntil l key b (now, failure k) (some e) st h = ground arith
entry_after-BannedUntil l key b (now, success k) (some e) st h = ground (arith, text_beq_iff k key)
entry_after-BannedUntil l key b (now, sweep) (some e) st h = ground arith

run-BannedUntil :
    (l : Limiter) (key : Text) (b : ℕ) (evs : List (ℕ × Event))
    → IsMap l
    → All (Stays l key b) evs
    → BannedUntil b (lookup key l.entries)
    → BannedUntil b (lookup key (run l evs).entries)
unfolding run
run-BannedUntil l key b [] u st h = h
run-BannedUntil l key b (ev ∷ evs) u st h =
    run-BannedUntil (step l ev) key b evs (step-IsMap l ev u) (stays evs st.1)
      (rw (entry-step l ev key u) (entry_after-BannedUntil l key b ev _ st.0 h))
  where
    stays : (es : List (ℕ × Event)) → All (Stays l key b) es → All (Stays (step l ev) key b) es
    stays [] a = tt
    stays (x ∷ es) a = (rw (step_settings l ev).2 a.0, stays es a.1)

allowed_banned :
    (l : Limiter) (now b : ℕ) (key : Text)
    → now ≤ b
    → BannedUntil b (lookup key l.entries)
    → allowed l now key ≡ false
unfolding allowed BannedUntil
allowed_banned l now b key h w = elim (Option-cases (lookup key l.entries)) [
  | inl e ↦ absurd (rw e at w)
  | inr (x, e) ↦ rw (e, allowed) (let v : b ≤ x.banned_until = rw e at w in ground arith)
]

-- A ban lasts: where the key's entry is banned until `b`, the key is refused at every time up to
-- `b`, whatever is recorded or swept meanwhile, unless a success of the key is recorded.
ban_lasts :
    (l : Limiter) (key : Text) (e : Entry) (b now : ℕ) (evs : List (ℕ × Event))
    → IsMap l
    → lookup key l.entries ≡ some e
    → b ≤ e.banned_until
    → All (Stays l key b) evs
    → now ≤ b
    → allowed (run l evs) now key ≡ false
unfolding BannedUntil
ban_lasts l key e b now evs u at h st le =
    allowed_banned (run l evs) now b key le (run-BannedUntil l key b evs u st (rw at h))
