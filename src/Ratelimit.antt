-- ===== src/Ratelimit.antt =====
-- internal/ratelimit/ratelimit.go: failures and bans per key. Times count nanoseconds from Go's
-- zero time, which is 0 here; each `time.Now()` is an argument. The mutex makes every method one
-- step, so a history is a list of timed calls. `t.After(now.Add(-w))` is written `now < t + w`.
mod Ban
pub mod Count
pub mod Isolation
mod Sweep
mod Tests
use mailroom.Prelude.{
  Bool, List, Option, Text, [], any, if◌then◌else◌, insert, keep, leb, length, lookup, ltb, nat_eq,
  none, remove, some, text_eq, true, ℕ, ◌++◌, ◌+◌, ◌||◌, ◌∷◌,
}

pub record Entry : Type 0 where
  pub failures : List ℕ
  pub banned_until : ℕ

abbrev pub no_entry : Entry
no_entry = record { failures = []; banned_until = 0 }

pub record Limiter : Type 0 where
  pub max_attempts : ℕ
  pub window : ℕ
  pub ban_duration : ℕ
  pub entries : List (Text × Entry)

unfoldable pub new : ℕ → ℕ → ℕ → Limiter
new max_attempts window ban_duration = record {
  max_attempts = max_attempts;
  window = window;
  ban_duration = ban_duration;
  entries = [];
}

unfoldable pub allowed : Limiter → ℕ → Text → Bool
allowed l now key = elim (lookup key l.entries) [ none ↦ true | some e ↦ ltb e.banned_until now ]

abbrev pub or_new : Option Entry → Entry
or_new none = no_entry
or_new (some e) = e

-- The failures that the window still holds.
unfoldable pub recent : Limiter → ℕ → List ℕ → List ℕ
unfolding keep
recent l now ts = keep (λ t. ltb now (t + l.window)) ts

pub fail_entry : Limiter → ℕ → Entry → Entry
unfolding recent
fail_entry l now e =
    let failures = recent l now e.failures ++ now ∷ [] in
    if leb l.max_attempts (length failures)
    then record { failures = []; banned_until = now + l.ban_duration }
    else record { failures = failures; banned_until = e.banned_until }

unfoldable pub record_failure : Limiter → ℕ → Text → Limiter
unfolding fail_entry
record_failure l now key = record l {
  entries = insert key (fail_entry l now (or_new (lookup key l.entries))) l.entries;
}

unfoldable pub record_success : Limiter → Text → Limiter
record_success l key = record l { entries = remove key l.entries }

-- An entry that `cleanup` leaves alone.
pub retained : Limiter → ℕ → Entry → Bool
unfolding any
retained l now e = ltb now e.banned_until || any (λ t. ltb now (t + l.window)) e.failures

unfoldable pub cleanup : Limiter → ℕ → Limiter
unfolding keep retained
cleanup l now = record l { entries = keep (λ p. retained l now p.1) l.entries }

-- What happens to a limiter: calls of the two recording methods, and sweeps of `Run`'s ticker.
pub data Event : Type 0 where
  failure success : Text → Event
  sweep : Event

unfoldable pub step : Limiter → ℕ × Event → Limiter
step l (now, failure key) = record_failure l now key
step l (now, success key) = record_success l key
step l (now, sweep) = cleanup l now

unfoldable pub run : Limiter → List (ℕ × Event) → Limiter
unfolding step
run l [] = l
run l (ev ∷ evs) = run (step l ev) evs
