-- ===== src/Queue/Relay/Order.antt =====
-- internal/queue/relay.go: the order in which the hosts of a domain are tried.
use mailroom.Prelude.{
  All, List, Option, Option-cases, Text, [], false, inl, inr, nat_eq, none, refl, some, text_eq,
  true, ◌++◌, ◌∷◌, ◌≡◌,
}
use mailroom.Queue.Relay.{Failure, is_permanent, try_hosts}

-- The host takes the message, or refuses it for good.
abbrev pub Decides : Option Failure → Type 0
Decides none = Unit
Decides (some e) = is_permanent e ≡ true

-- The host fails for now.
abbrev pub Defers : (Text → Option Failure) → Text → Type 0
Defers try host = ((e : Failure) × (try host ≡ some e) × (is_permanent e ≡ false))

-- Where hosts fail for now and the next one takes the message or refuses it for good, the delivery
-- is answered as that host answers, whatever hosts come after it.
first-Decides :
    (try : Text → Option Failure) (last : Option Failure) (before after : List Text) (host : Text)
    → All (Defers try) before
    → Decides (try host)
    → try_hosts try last (before ++ host ∷ after) ≡ try host
unfolding try_hosts
first-Decides try last [] after host d decided = elim (Option-cases (try host)) [
  | inl ok ↦ rw (ok) refl
  | inr (e, refused) ↦ rw (refused, rw (refused) at decided) refl
]
first-Decides try last (h ∷ before) after host ((e, failed, temporary), d) decided =
    rw (failed, temporary) (first-Decides try (some e) before after host d decided)

-- Where every host fails for now, the delivery fails for now, with the last host's failure.
all_defer :
    (try : Text → Option Failure) (last : Option Failure) (before : List Text) (host : Text)
    → All (Defers try) before
    → Defers try host
    → try_hosts try last (before ++ host ∷ []) ≡ try host
unfolding try_hosts
all_defer try last [] host d (e, failed, temporary) = rw (failed, temporary) refl
all_defer try last (h ∷ before) host ((e, failed, temporary), d) last_one =
    rw (failed, temporary) (all_defer try (some e) before host d last_one)
