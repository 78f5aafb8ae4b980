-- ===== src/Ratelimit/Isolation.antt =====
-- internal/ratelimit/ratelimit.go: what an event does to each key's entry.
use mailroom.Prelude.{
  Option, Text, Unique, arith, if◌then◌else◌, insert-Unique, keep-Unique, keep_some, lookup,
  lookup-insert, lookup-keep, lookup-remove, nat_eq, none, refl, remove-Unique, some, text_beq_iff,
  text_eq, ℕ, ◌==◌, ◌≡◌,
}
use mailroom.Ratelimit.{
  Entry, Event, Limiter, cleanup, fail_entry, failure, or_new, record_failure, record_success,
  retained, step, success, sweep,
}

-- The entries form a map.
abbrev pub IsMap : Limiter → Type 0
IsMap l = Unique l.entries

-- What an event makes of the entry of a key.
unfoldable pub entry_after : Limiter → ℕ × Event → Text → Option Entry → Option Entry
entry_after l (now, failure key) other o =
    if key == other then some (fail_entry l now (or_new o)) else o
entry_after l (now, success key) other o = if key == other then none else o
entry_after l (now, sweep) other o = keep_some (retained l now) o

-- Each event changes the entry of the key that it names, and a sweep drops entries alone.
pub entry-step :
    (l : Limiter) (ev : ℕ × Event) (other : Text)
    → IsMap l
    → lookup other (step l ev).entries ≡ entry_after l ev other (lookup other l.entries)
unfolding step record_failure record_success cleanup entry_after
entry-step l (now, failure key) other u = ground (
  arith,
  lookup-insert key other (fail_entry l now (or_new (lookup key l.entries))) l.entries,
  text_beq_iff key other,
)
entry-step l (now, success key) other u = lookup-remove key other l.entries
entry-step l (now, sweep) other u = lookup-keep (retained l now) other l.entries u

pub step-IsMap : (l : Limiter) (ev : ℕ × Event) → IsMap l → IsMap (step l ev)
unfolding step record_failure record_success cleanup
step-IsMap l (now, failure key) u =
    insert-Unique key (fail_entry l now (or_new (lookup key l.entries))) l.entries u
step-IsMap l (now, success key) u = remove-Unique key l.entries u
step-IsMap l (now, sweep) u = keep-Unique (retained l now) l.entries u

-- No event changes the settings.
pub step_settings :
    (l : Limiter) (ev : ℕ × Event)
    → ((step l ev).max_attempts ≡ l.max_attempts)
      × ((step l ev).window ≡ l.window)
      × ((step l ev).ban_duration ≡ l.ban_duration)
unfolding step record_failure record_success cleanup
step_settings l (now, failure key) = (refl, refl, refl)
step_settings l (now, success key) = (refl, refl, refl)
step_settings l (now, sweep) = (refl, refl, refl)
