-- ===== src/Queue/Tests.antt =====
-- Runs of internal/queue/queue.go: two waiting messages, one of them due.
use mailroom.Queue.Turn.{IsFiled, next_view, view}
use mailroom.Prelude.{
  List, [], arith, codes, lookup, nat_eq, none, refl, some, text_beq_iff, text_eq, true, ◌∷◌, ◌≡◌,
}
use mailroom.Queue.{Item, Settings, Spool, World, process_all}
use mailroom.Queue.Relay.{Failure, Server, other_error, quit, smtp_error}
use mailroom.Queue.Attempt.{Ends}
use mailroom.Queue.Pass.{process_all_lem}

abbrev settings : Settings
settings = record { retry_intervals = 60 ∷ 300 ∷ []; max_retries = 2; bounces = true }

abbrev due : Item
due = record {
  id = codes "1";
  from = codes "a@a.org";
  to = codes "b@b.org";
  attempts = 1;
  next_attempt = 50;
  last_error = [];
  created_at = 10;
}

abbrev early : Item
early = record due { id = codes "2"; next_attempt = 500 }

abbrev spool : Spool
spool = record {
  items = (codes "1", some due) ∷ (codes "2", some early) ∷ [];
  bodies = (codes "1", codes "hello") ∷ (codes "2", codes "not yet") ∷ [];
}

abbrev greylisted : Failure
greylisted = smtp_error true (codes "451 try again")

abbrev world : World
world = record { now = 90; finished = λ _. 100; deliver = λ _ _. some greylisted }

spool-IsFiled : IsFiled spool
unfolding lookup
spool-IsFiled id item h =
    ground (arith, h, text_beq_iff (codes "1") id, text_beq_iff (codes "2") id)

process_all_lem_example :
    Ends
      (process_all settings world spool)
      (λ t _. view (codes "1") t ≡ next_view settings world (view (codes "1") spool))
unfolding lookup
process_all_lem_example =
    process_all_lem settings world (codes "1") spool (λ e. cc) spool-IsFiled (refl, (refl, tt))

-- Two passes of a server that keeps answering 451.
abbrev passes : List World
passes = world ∷ record world { now = 500 } ∷ []

-- A server that takes everything but QUIT.
abbrev hasty : Server
hasty = elim [ quit ↦ some (other_error (codes "EOF")) | _ ↦ none ]
