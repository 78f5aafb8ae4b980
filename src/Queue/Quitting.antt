-- ===== src/Queue/Quitting.antt =====
-- internal/queue/relay.go and queue.go: what a failing QUIT means for an item.
use mailroom.Prelude.{Option, Text, nat_eq, some, text_eq, ℕ, ◌≡◌, ◌⊎◌}
use mailroom.Queue.{Item, Settings, Spool, attempt}
use mailroom.Queue.Attempt.{Ends, GivenUp, Retried}
use mailroom.Queue.Relay.{Failure}

-- The item is tried again later or given up.
abbrev pub NotDelivered : Settings → ℕ → Item → Text → Spool → (Option Failure) → Type 0
NotDelivered q now item content s answer =
    (e : Failure) × (answer ≡ some e)
    × Ends (attempt q (λ _ _. answer) now item s)
        (λ t bounces. Retried q now item content e t bounces ⊎ GivenUp q item content e t bounces)
