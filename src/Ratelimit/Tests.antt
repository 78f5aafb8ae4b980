-- ===== src/Ratelimit/Tests.antt =====
-- Runs of internal/ratelimit/ratelimit.go: a ban that ends at 140, and a sweep after it.
use mailroom.Prelude.{Text, [], arith, codes, lookup, nat_eq, refl, text_eq, ◌∷◌, ◌≡◌}
use mailroom.Ratelimit.{Limiter, allowed, cleanup, failure, run}
use mailroom.Ratelimit.Sweep.{cleanup_unnoticed}

abbrev client : Text
client = codes "203.0.113.7"

abbrev banned : Limiter
banned = record {
  max_attempts = 3;
  window = 60;
  ban_duration = 100;
  entries = (client, record { failures = []; banned_until = 140 }) ∷ [];
}

cleanup_unnoticed_example :
    allowed (run (cleanup banned 150) ((160, failure client) ∷ [])) 170 client
    ≡ allowed (run banned ((160, failure client) ∷ [])) 170 client
unfolding lookup
cleanup_unnoticed_example =
    cleanup_unnoticed banned 150 170 client ((160, failure client) ∷ []) (refl, tt)
      (omega arith, omega arith)
