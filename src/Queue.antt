-- ===== src/Queue.antt =====
-- internal/queue/queue.go: the spool of messages to relay. Each message is two files, a body
-- ("<id>.eml") and its item ("<id>.json"), kept here as two maps by id; an item that cannot be read
-- back is `none`. The clock, the identifiers and what a delivery answers are arguments.
pub mod Relay
pub mod Attempt
mod Pass
pub mod Turn
pub mod Expiry
pub mod Quitting
mod Tests
use Relay.{Failure, is_permanent}
use mailroom.Prelude.{
  Bool, List, Option, Text, [], get_elem?, if◌then◌else◌, insert, lookup, ltb, map, nat_eq, none,
  remove, some, text_eq, ℕ, ◌++◌, ◌+◌, ◌-◌, ◌||◌, ◌∷◌,
}

pub record Item : Type 0 where
  pub id : Text
  pub from : Text
  pub to : Text
  pub attempts : ℕ
  pub next_attempt : ℕ
  pub last_error : Text
  pub created_at : ℕ

pub record Spool : Type 0 where
  pub items : List (Text × Option Item)
  pub bodies : List (Text × Text)

pub record Settings : Type 0 where
  pub retry_intervals : List ℕ
  pub max_retries : ℕ
  pub bounces : Bool

-- One call of OnPermanentFailure.
pub record Bounce : Type 0 where
  pub item : Item
  pub content : Text
  pub reason : Text

unfoldable pub save : Item → Spool → Spool
unfolding insert
save item s = record s { items = insert item.id (some item) s.items }

-- Enqueue, with an identifier that `generateID` made, or none where the random source fails.
unfoldable pub enqueue : Option Text → ℕ → Text → Text → Text → Spool → Spool × Option Text
unfolding save insert
enqueue none now from to content s = (s, none)
enqueue (some id) now from to content s = (
  save
      (record {
        id = id;
        from = from;
        to = to;
        attempts = 0;
        next_attempt = now;
        last_error = [];
        created_at = now;
      })
      (record s { bodies = insert id content s.bodies }),
  some id,
)

-- load
unfoldable pub load : Text → Spool → Option Item
unfolding lookup
load id s = elim (lookup id s.items) [ none ↦ none | some item ↦ item ]

-- remove
unfoldable pub drop_item : Text → Spool → Spool
unfolding remove
drop_item id s = record { items = remove id s.items; bodies = remove id s.bodies }

-- A call may index past the retry intervals, which ends the process.
pub data Outcome : Type 0 where
  panic : Outcome
  done : Spool → List Bounce → Outcome

unfoldable pub last_of : List ℕ → Option ℕ
last_of [] = none
last_of (x ∷ []) = some x
last_of (x ∷ y ∷ xs) = last_of (y ∷ xs)

-- The delay before the next attempt: the last interval is read first, and kept where the attempts
-- are more than the intervals.
unfoldable pub retry_delay : List ℕ → ℕ → Option ℕ
unfolding last_of
retry_delay intervals attempts = elim (last_of intervals) [
  | none ↦ none
  | some last ↦ elim (get_elem? intervals (attempts - 1)) [ none ↦ some last | some d ↦ some d ]
]

-- What becomes of an item whose delivery failed: it is given up, or saved for later, or the process
-- ends.
pub data Fate : Type 0 where
  given_up crash : Fate
  retried : Item → Fate

unfoldable pub fate : Settings → ℕ → Item → Failure → Fate
unfolding retry_delay is_permanent
fate q now item e =
    if is_permanent e || ltb q.max_retries item.attempts
    then given_up
    else elim (retry_delay q.retry_intervals item.attempts) [
      | none ↦ crash
      | some delay ↦ retried (record item { next_attempt = now + delay })
    ]

unfoldable pub failed_item : Item → Failure → Item
failed_item item e = record item { attempts = item.attempts + 1; last_error = Relay.message e }

unfoldable pub conclude : Settings → Item → Text → Failure → Spool → Fate → Outcome
unfolding drop_item save
conclude q item content e s given_up = done (drop_item item.id s) (
    if q.bounces
    then record { item = item; content = content; reason = Relay.message e } ∷ []
    else [])
conclude q item content e s crash = panic
conclude q item content e s (retried later) = done (save later s) []

-- attempt; `now` is the time at which the delivery ended, and `deliver` what it answers.
unfoldable pub attempt : Settings → (Item → Text → Option Failure) → ℕ → Item → Spool → Outcome
unfolding lookup drop_item fate failed_item conclude
attempt q deliver now item s = elim (lookup item.id s.bodies) [
  | none ↦ done (drop_item item.id s) []
  | some content ↦ elim (deliver item content) [
    | none ↦ done (drop_item item.id s) []
    | some e ↦ let tried = failed_item item e in conclude q tried content e s (fate q now tried e)
  ]
]

-- What the world does in one pass: the clock when it starts, when each delivery ends, and how.
pub record World : Type 0 where
  pub now : ℕ
  pub finished : Item → ℕ
  pub deliver : Item → Text → Option Failure

-- The turn of one entry of the directory.
unfoldable pub turn : Settings → World → Text → Spool → Outcome
unfolding load attempt
turn q w id s = elim (load id s) [
  | none ↦ done s []
  | some item ↦
      if ltb w.now item.next_attempt
      then done s []
      else attempt q w.deliver (w.finished item) item s
]

unfoldable pub after_turn : Outcome → (Spool → Outcome) → Outcome
after_turn panic next = panic
after_turn (done s bounces) next = elim (next s) [
  | panic ↦ panic
  | done t more ↦ done t (bounces ++ more)
]

unfoldable pub turns : Settings → World → List Text → Spool → Outcome
unfolding turn after_turn
turns q w [] s = done s []
turns q w (id ∷ ids) s = after_turn (turn q w id s) (turns q w ids)

-- processAll: the directory is read once, at the start, here in the order of the map.
unfoldable pub process_all : Settings → World → Spool → Outcome
unfolding turns
process_all q w s = turns q w (map (λ p. p.0) s.items) s

-- Run: a pass at the start and one at every tick, until the process ends.
unfoldable pub run : Settings → List World → Spool → Outcome
unfolding process_all after_turn
run q [] s = done s []
run q (w ∷ ws) s = after_turn (process_all q w s) (run q ws)
