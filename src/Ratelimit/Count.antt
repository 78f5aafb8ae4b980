-- ===== src/Ratelimit/Count.antt =====
-- internal/ratelimit/ratelimit.go: how many failures start a ban.
use mailroom.Prelude.{
  All, All-append, List, Option, Option-cases, Text, [], any, ap, arith, same_refl, if◌then◌else◌,
  inl, inr, keep, length, length-append, length-keep-le, lookup, lookup-insert, ltb, nat_eq, none,
  refl, some, subst, suc, text_beq_iff, text_eq, true, ℕ, ◌+◌, ◌<◌, ◌==◌, ◌||◌, ◌∙◌, ◌∷◌, ◌≡◌, ◌≢◌,
  ◌≤◌,
}
use mailroom.Ratelimit.{
  Entry, Event, Limiter, allowed, fail_entry, failure, or_new, recent, record_failure, retained,
  run, step, success, sweep,
}
use mailroom.Ratelimit.Isolation.{IsMap, entry-step, entry_after, step-IsMap, step_settings}

-- The failures of the key in a history.
unfoldable pub count_failures : Text → List (ℕ × Event) → ℕ
count_failures key [] = 0
count_failures key ((now, failure k) ∷ evs) =
    let rest = count_failures key evs in if k == key then suc rest else rest
count_failures key ((now, success k) ∷ evs) = count_failures key evs
count_failures key ((now, sweep) ∷ evs) = count_failures key evs

-- At most `n` failures are held, and no ban was ever set.
abbrev Quiet : ℕ → Option Entry → Type 0
Quiet n none = Unit
Quiet n (some e) = (length e.failures ≤ n) × (e.banned_until ≡ 0)

fail_entry-Quiet :
    (l : Limiter) (now n : ℕ) (o : Option Entry)
    → suc n < l.max_attempts
    → Quiet n o
    → Quiet (suc n) (some (fail_entry l now (or_new o)))
unfolding fail_entry recent
fail_entry-Quiet l now n none h q = ground arith
fail_entry-Quiet l now n (some e) h q = ground (
  arith,
  length-append (keep (λ t. ltb now (t + l.window)) e.failures) (now ∷ []),
  length-keep-le (λ t. ltb now (t + l.window)) e.failures,
)

Quiet-mono : {n m : ℕ} (o : Option Entry) → n ≤ m → Quiet n o → Quiet m o
Quiet-mono none h q = tt
Quiet-mono (some e) h q = omega arith

entry_after-Quiet :
    (l : Limiter) (key : Text) (n : ℕ) (ev : ℕ × Event) (o : Option Entry)
    → n + count_failures key (ev ∷ []) < l.max_attempts
    → Quiet n o
    → Quiet (n + count_failures key (ev ∷ [])) (entry_after l ev key o)
unfolding entry_after count_failures
entry_after-Quiet l key n (now, failure k) o h q = ground (
  arith,
  fail_entry-Quiet l now n o,
  Quiet-mono {n = suc n} {m = n + 1} (some (fail_entry l now (or_new o))),
  Quiet-mono {n = n} {m = n + 0} o,
)
entry_after-Quiet l key n (now, success k) o h q = ground (arith, Quiet-mono {n = n} {m = n + 0} o)
entry_after-Quiet l key n (now, sweep) none h q = tt
entry_after-Quiet l key n (now, sweep) (some x) h q = ground arith

count_failures-cons :
    (key : Text) (ev : ℕ × Event) (evs : List (ℕ × Event))
    → count_failures key (ev ∷ evs) ≡ count_failures key (ev ∷ []) + count_failures key evs
unfolding count_failures
count_failures-cons key (now, failure k) evs = ground arith
count_failures-cons key (now, success k) evs = omega arith
count_failures-cons key (now, sweep) evs = omega arith

run-Quiet :
    (l : Limiter) (key : Text) (n : ℕ) (evs : List (ℕ × Event))
    → IsMap l
    → n + count_failures key evs < l.max_attempts
    → Quiet n (lookup key l.entries)
    → Quiet (n + count_failures key evs) (lookup key (run l evs).entries)
unfolding run
run-Quiet l key n [] u h q = Quiet-mono (lookup key l.entries) (omega arith) q
run-Quiet l key n (ev ∷ evs) u h q =
    let split = count_failures-cons key ev evs in
    let settings = step_settings l ev in
    let next : Quiet (n + count_failures key (ev ∷ [])) (lookup key (step l ev).entries) =
      rw (entry-step l ev key u) (entry_after-Quiet l key n ev _ (omega (arith, split)) q) in
    Quiet-mono (lookup key (run (step l ev) evs).entries) (omega (arith, split)) (
      run-Quiet (step l ev) key (n + count_failures key (ev ∷ [])) evs (step-IsMap l ev u)
        (omega (arith, split, settings)) next)

-- No ban comes early: a key with no entry is allowed at every positive time, after any history that
-- holds fewer failures of the key than the limiter's maximum, whatever else the history holds.
pub no_early_ban :
    (l : Limiter) (key : Text) (evs : List (ℕ × Event)) (now : ℕ)
    → IsMap l
    → lookup key l.entries ≡ none
    → count_failures key evs < l.max_attempts
    → 0 < now
    → allowed (run l evs) now key ≡ true
unfolding allowed
no_early_ban l key evs now u at h pos = elim (Option-cases (lookup key (run l evs).entries)) [
  | inl e ↦ rw (e, allowed)
  | inr (x, e) ↦
      let q : Quiet (0 + count_failures key evs) (some x) =
        rw e at (run-Quiet l key 0 evs u (omega arith) (rw at tt)) in
      rw (e, allowed) (ground arith)
]

-- All the times lie in one window that starts at `t0`, and no success of the key is recorded.
abbrev pub Burst : Limiter → Text → ℕ → ℕ × Event → Type 0
Burst l key t0 (now, ev) = (t0 ≤ now) × (now < t0 + l.window) × (ev ≢ success key)

-- Exactly `n` failures are held, none of them before `t0`.
abbrev Counted : ℕ → ℕ → Option Entry → Type 0
Counted t0 n none = n ≡ 0
Counted t0 n (some e) =
    (length e.failures ≡ n) × (e.banned_until ≡ 0) × (0 < n) × All (λ t. t0 ≤ t) e.failures

recent-All :
    (l : Limiter) (now t0 : ℕ) (ts : List ℕ)
    → now < t0 + l.window
    → All (λ t. t0 ≤ t) ts
    → recent l now ts ≡ ts
unfolding recent
recent-All l now t0 [] h a = refl
recent-All l now t0 (t ∷ ts) h a = ground (arith, recent-All l now t0 ts h a.1)

fail_entry-Counted :
    (l : Limiter) (now t0 n : ℕ) (o : Option Entry)
    → t0 ≤ now
    → now < t0 + l.window
    → suc n < l.max_attempts
    → Counted t0 n o
    → Counted t0 (suc n) (some (fail_entry l now (or_new o)))
unfolding fail_entry
fail_entry-Counted l now t0 n none h k m c = ground (arith, recent-All l now t0 [] k tt)
fail_entry-Counted l now t0 n (some e) h k m c =
    rw (recent-All l now t0 e.failures k c.3, fail_entry)
      (ground (
        arith,
        length-append e.failures (now ∷ []),
        All-append (λ t. t0 ≤ t) e.failures (now ∷ []) c.3,
      ))

retained-Counted :
    (l : Limiter) (now t0 n : ℕ) (e : Entry)
    → now < t0 + l.window
    → Counted t0 n (some e)
    → retained l now e ≡ true
unfolding retained
retained-Counted l now t0 n e h c = go e.failures (omega (arith, c.0, c.2)) c.3
  where
    go :
        (ts : List ℕ)
        → 0 < length ts
        → All (λ t. t0 ≤ t) ts
        → (ltb now e.banned_until || any (λ t. ltb now (t + l.window)) ts) ≡ true
    go [] p a = absurd (omega arith)
    go (t ∷ ts) p a = ground arith

Counted-eq : (t0 n m : ℕ) (o : Option Entry) → n ≡ m → Counted t0 n o → Counted t0 m o
Counted-eq t0 n m o e c = subst (λ k. Counted t0 k o) e c

entry_after-Counted :
    (l : Limiter) (key : Text) (t0 n : ℕ) (ev : ℕ × Event) (o : Option Entry)
    → Burst l key t0 ev
    → n + count_failures key (ev ∷ []) < l.max_attempts
    → Counted t0 n o
    → Counted t0 (n + count_failures key (ev ∷ [])) (entry_after l ev key o)
unfolding entry_after count_failures
entry_after-Counted l key t0 n (now, failure k) o b h c = ground (
  arith,
  fail_entry-Counted l now t0 n o,
  Counted-eq t0 (suc n) (n + 1) (some (fail_entry l now (or_new o))),
  Counted-eq t0 n (n + 0) o,
)
entry_after-Counted l key t0 n (now, success k) o b h c =
    ground (arith, text_beq_iff k key, Counted-eq t0 n (n + 0) o)
entry_after-Counted l key t0 n (now, sweep) none b h c = omega arith
entry_after-Counted l key t0 n (now, sweep) (some e) b h c =
    rw (retained-Counted l now t0 n e b.1 c) (Counted-eq t0 n (n + 0) (some e) (omega arith) c)

run-Counted :
    (l : Limiter) (key : Text) (t0 n : ℕ) (evs : List (ℕ × Event))
    → IsMap l
    → All (Burst l key t0) evs
    → n + count_failures key evs < l.max_attempts
    → Counted t0 n (lookup key l.entries)
    → Counted t0 (n + count_failures key evs) (lookup key (run l evs).entries)
unfolding run count_failures
run-Counted l key t0 n [] u b h c = Counted-eq t0 n (n + 0) (lookup key l.entries) (omega arith) c
run-Counted l key t0 n (ev ∷ evs) u b h c =
    let cut = count_failures-cons key ev evs in
    let settings = step_settings l ev in
    let next : Counted t0 (n + count_failures key (ev ∷ [])) (lookup key (step l ev).entries) =
      rw (entry-step l ev key u) (entry_after-Counted l key t0 n ev _ b.0 (omega (arith, cut)) c) in
    Counted-eq t0 _ _ (lookup key (run (step l ev) evs).entries) (omega (arith, cut)) (
      run-Counted (step l ev) key t0 (n + count_failures key (ev ∷ [])) evs (step-IsMap l ev u)
        (bursts evs b.1) (omega (arith, cut, settings)) next)
  where
    bursts : (es : List (ℕ × Event)) → All (Burst l key t0) es → All (Burst (step l ev) key t0) es
    bursts [] a = tt
    bursts (x ∷ es) a = (rw (step_settings l ev).1 a.0, bursts es a.1)

run_settings :
    (l : Limiter) (evs : List (ℕ × Event))
    → ((run l evs).max_attempts ≡ l.max_attempts)
      × ((run l evs).window ≡ l.window)
      × ((run l evs).ban_duration ≡ l.ban_duration)
unfolding run
run_settings l [] = (refl, refl, refl)
run_settings l (ev ∷ evs) = ground (arith, run_settings (step l ev) evs, step_settings l ev)

fail_entry_at_max :
    (l : Limiter) (now t0 n : ℕ) (o : Option Entry)
    → now < t0 + l.window
    → suc n ≡ l.max_attempts
    → Counted t0 n o
    → (fail_entry l now (or_new o)).banned_until ≡ now + l.ban_duration
unfolding fail_entry
fail_entry_at_max l now t0 n none h m c = ground (arith, recent-All l now t0 [] h tt)
fail_entry_at_max l now t0 n (some e) h m c =
    rw (recent-All l now t0 e.failures h c.3, fail_entry)
      (ground (arith, length-append e.failures (now ∷ [])))

last_failure :
    (l : Limiter) (now t0 n later : ℕ) (key : Text)
    → now < t0 + l.window
    → suc n ≡ l.max_attempts
    → Counted t0 n (lookup key l.entries)
    → allowed (record_failure l now key) later key ≡ ltb (now + l.ban_duration) later
unfolding allowed record_failure
last_failure l now t0 n later key h m c = ground (
  arith,
  lookup-insert key key (fail_entry l now (or_new (lookup key l.entries))) l.entries,
  same_refl key,
  fail_entry_at_max l now t0 n (lookup key l.entries) h m c,
)

-- A ban starts at the maximum: where a key with no entry has, within one window and with no success
-- between, one failure less than the maximum recorded, sweeps and other keys' calls in between, its
-- next failure in that window makes it refused up to the end of the ban, and allowed after it.
pub ban_at_max :
    (l : Limiter) (key : Text) (t0 now later : ℕ) (evs : List (ℕ × Event))
    → IsMap l
    → lookup key l.entries ≡ none
    → All (Burst l key t0) evs
    → now < t0 + l.window
    → suc (count_failures key evs) ≡ l.max_attempts
    → allowed (record_failure (run l evs) now key) later key ≡ ltb (now + l.ban_duration) later
ban_at_max l key t0 now later evs u at b h m =
    let settings = run_settings l evs in
    let c = run-Counted l key t0 0 evs u b (omega arith) (rw at refl) in
    last_failure (run l evs) now t0 (0 + count_failures key evs) later key (omega (arith, settings))
      (omega (arith, settings)) c
    ∙ ap (λ d. ltb (now + d) later) settings.2
