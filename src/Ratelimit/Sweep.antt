-- ===== src/Ratelimit/Sweep.antt =====
-- internal/ratelimit/ratelimit.go: `cleanup` cannot be noticed.
use mailroom.Ratelimit.Isolation.{IsMap, entry-step, entry_after, step-IsMap}
use mailroom.Prelude.{
  Bool-cases, List, Option, Text, Unique, [], any, ap, arith, false, inl, inr, keep, keep-Unique,
  keep_some, lookup, lookup-keep, ltb, nat_eq, none, refl, some, sym, text_eq, ℕ, ◌+◌, ◌<◌, ◌==◌,
  ◌∙◌, ◌∷◌, ◌≡◌, ◌≤◌, ◌⊎◌,
}
use mailroom.Ratelimit.{
  Entry, Event, Limiter, allowed, cleanup, fail_entry, failure, or_new, recent, record_failure,
  record_success, retained, run, step, success, sweep,
}

-- What still counts of an entry: the failures in the window, and a ban that is not over.
SameEntry : Limiter → ℕ → Option Entry → Option Entry → Type 0
SameEntry l now o p =
    (recent l now (or_new o).failures ≡ recent l now (or_new p).failures)
    × (((or_new o).banned_until ≡ (or_new p).banned_until)
        ⊎ (((or_new o).banned_until ≤ now) × ((or_new p).banned_until ≤ now)))

recent-later :
    (l : Limiter) (now later : ℕ) (ts : List ℕ)
    → now ≤ later
    → recent l later (recent l now ts) ≡ recent l later ts
unfolding recent
recent-later l now later [] h = refl
recent-later l now later (t ∷ ts) h = ground (arith, recent-later l now later ts h)

SameEntry-later :
    (l : Limiter) (now later : ℕ) (o p : Option Entry)
    → now ≤ later
    → SameEntry l now o p
    → SameEntry l later o p
unfolding SameEntry
SameEntry-later l now later o p h s = (
  sym (recent-later l now later (or_new o).failures h)
      ∙ ap (recent l later) s.0
      ∙ recent-later l now later (or_new p).failures h,
  omega arith,
)

recent_none :
    (l : Limiter) (now : ℕ) (ts : List ℕ)
    → any (λ t. ltb now (t + l.window)) ts ≡ false
    → recent l now ts ≡ []
unfolding recent any
recent_none l now [] h = refl
recent_none l now (t ∷ ts) h = ground (arith, recent_none l now ts)

-- Dropping what the sweep drops changes nothing that counts.
sweep-SameEntry :
    (l : Limiter) (now : ℕ) (o p : Option Entry)
    → SameEntry l now o p
    → SameEntry l now (keep_some (retained l now) o) p
unfolding SameEntry retained
sweep-SameEntry l now none p s = s
sweep-SameEntry l now (some e) p s =
    ground (arith, recent_none l now e.failures, recent_none l now [])

SameEntry-sym :
    (l : Limiter) (now : ℕ) (o p : Option Entry) → SameEntry l now o p → SameEntry l now p o
unfolding SameEntry
SameEntry-sym l now o p s = ground arith

fail-SameEntry :
    (l : Limiter) (now : ℕ) (o p : Option Entry)
    → SameEntry l now o p
    → SameEntry l now (some (fail_entry l now (or_new o))) (some (fail_entry l now (or_new p)))
unfolding SameEntry fail_entry
fail-SameEntry l now o p s = rw (s.0, fail_entry) (ground arith)

entry_after-SameEntry :
    (l : Limiter) (ev : ℕ × Event) (key : Text) (o p : Option Entry)
    → SameEntry l ev.0 o p
    → SameEntry l ev.0 (entry_after l ev key o) (entry_after l ev key p)
unfolding entry_after
entry_after-SameEntry l (now, failure k) key o p s = ground (arith, fail-SameEntry l now o p)
entry_after-SameEntry l (now, success k) key o p s = elim (Bool-cases (k == key)) [
  | inl e ↦ rw e (unfold SameEntry in (refl, inl refl))
  | inr e ↦ rw e s
]
entry_after-SameEntry l (now, sweep) key o p s =
    sweep-SameEntry l now o (keep_some (retained l now) p) (
      SameEntry-sym l now (keep_some (retained l now) p) o
        (sweep-SameEntry l now p o (SameEntry-sym l now o p s)))

-- An event's effect on an entry depends on the settings alone.
entry_after-entries :
    (l : Limiter) (xs : List (Text × Entry)) (ev : ℕ × Event) (key : Text) (o : Option Entry)
    → entry_after (record l { entries = xs }) ev key o ≡ entry_after l ev key o
unfolding entry_after fail_entry retained
entry_after-entries l xs (now, failure k) key o = refl
entry_after-entries l xs (now, success k) key o = refl
entry_after-entries l xs (now, sweep) key o = refl

-- The times of a history do not fall, and it ends before `later`.
abbrev pub Timed : ℕ → List (ℕ × Event) → ℕ → Type 0
Timed now [] later = now < later
Timed now (ev ∷ evs) later = (now ≤ ev.0) × Timed ev.0 evs later

SameView : Limiter → ℕ → List (Text × Entry) → List (Text × Entry) → Type 0
SameView l now xs ys = (key : Text) → SameEntry l now (lookup key xs) (lookup key ys)

allowed_same :
    (l : Limiter) (now later : ℕ) (key : Text) (xs ys : List (Text × Entry))
    → now < later
    → SameView l now xs ys
    → allowed (record l { entries = xs }) later key ≡ allowed (record l { entries = ys }) later key
unfolding allowed SameView SameEntry
allowed_same l now later key xs ys h s = ground (arith, s key)

step-SameView :
    (l : Limiter) (ev : ℕ × Event) (now : ℕ) (xs ys : List (Text × Entry))
    → Unique xs
    → Unique ys
    → now ≤ ev.0
    → SameView l now xs ys
    → SameView l ev.0
        (step (record l { entries = xs }) ev).entries
        (step (record l { entries = ys }) ev).entries
unfolding SameView
step-SameView l ev now xs ys u v h s key =
    rw
      (
        entry-step (record l { entries = xs }) ev key u,
        entry-step (record l { entries = ys }) ev key v,
        entry_after-entries l xs ev key (lookup key xs),
        entry_after-entries l ys ev key (lookup key ys),
      )
      (entry_after-SameEntry l ev key (lookup key xs) (lookup key ys)
        (SameEntry-later l now ev.0 (lookup key xs) (lookup key ys) h (s key)))

step-record :
    (l : Limiter) (xs : List (Text × Entry)) (ev : ℕ × Event)
    → step (record l { entries = xs }) ev
      ≡ record l { entries = (step (record l { entries = xs }) ev).entries }
unfolding step record_failure record_success cleanup
step-record l xs (now, failure key) = refl
step-record l xs (now, success key) = refl
step-record l xs (now, sweep) = refl

run_same :
    (l : Limiter) (now later : ℕ) (key : Text) (xs ys : List (Text × Entry))
    (evs : List (ℕ × Event))
    → Unique xs
    → Unique ys
    → Timed now evs later
    → SameView l now xs ys
    → allowed (run (record l { entries = xs }) evs) later key
      ≡ allowed (run (record l { entries = ys }) evs) later key
unfolding run
run_same l now later key xs ys [] u v t s = allowed_same l now later key xs ys t s
run_same l now later key xs ys (ev ∷ evs) u v t s =
    rw (step-record l xs ev, step-record l ys ev)
      (run_same l ev.0 later key (step (record l { entries = xs }) ev).entries
        (step (record l { entries = ys }) ev).entries evs
        (step-IsMap (record l { entries = xs }) ev u) (step-IsMap (record l { entries = ys }) ev v)
        t.1 (step-SameView l ev now xs ys u v t.0 s))

-- A sweep cannot be noticed: whatever happens after it, with times that do not fall, a key is
-- allowed at a later time exactly when it would be without the sweep.
pub cleanup_unnoticed :
    (l : Limiter) (now later : ℕ) (key : Text) (evs : List (ℕ × Event))
    → IsMap l
    → Timed now evs later
    → allowed (run (cleanup l now) evs) later key ≡ allowed (run l evs) later key
unfolding cleanup SameView SameEntry
cleanup_unnoticed l now later key evs u t =
    run_same l now later key (keep (λ p. retained l now p.1) l.entries) l.entries evs
      (keep-Unique (retained l now) l.entries u) u t
      (λ k.
        rw (lookup-keep (retained l now) k l.entries u)
          (sweep-SameEntry l now (lookup k l.entries) (lookup k l.entries) (refl, inl refl)))
