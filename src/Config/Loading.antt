-- ===== src/Config/Loading.antt =====
-- internal/config/config.go: what holds of a configuration that was loaded.
use mailroom.Prelude.{
  List, Option, Option-cases, Text, [], arith, codes, false, inl, inr, is_nil, nat_eq, none, refl,
  some, subst, suc, text_beq_iff, text_eq, zero, ℕ, ◌<◌, ◌∷◌, ◌≡◌, ◌≢◌, ◌⊎◌,
}
use mailroom.Config.{
  Config, Env, apply_defaults, apply_env_overrides, default_dsn, load, or_default, or_number,
  or_numbers, validate,
}

-- What the rest of the program takes for granted.
pub record IsComplete (c : Config) : Type 0 where
  pub named : is_nil c.hostname ≡ false
  pub has_domain : is_nil c.domains ≡ false
  pub known_driver : (c.database.driver ≡ codes "sqlite") ⊎ (c.database.driver ≡ codes "postgres")
  pub has_dsn : is_nil c.database.dsn ≡ false
  pub has_interval : c.queue.retry_interval_minutes ≢ []
  pub retries : 0 < c.queue.max_retries
  pub attempts : 0 < c.security.auth_rate_limit.max_attempts
  pub window : 0 < c.security.auth_rate_limit.window_minutes
  pub ban : 0 < c.security.auth_rate_limit.ban_minutes

or_number-positive : (n d : ℕ) → 0 < or_number n (suc d)
unfolding or_number
or_number-positive zero d = omega arith
or_number-positive (suc n) d = omega arith

or_numbers-filled : (ns : List ℕ) (n : ℕ) (rest : List ℕ) → or_numbers ns (n ∷ rest) ≢ []
unfolding or_numbers
or_numbers-filled [] n rest e = absurd (cc (e))
or_numbers-filled (m ∷ ms) n rest e = absurd (cc (e))

or_default-filled : (s : Text) (c : ℕ) (d : Text) → is_nil (or_default s (c ∷ d)) ≡ false
unfolding or_default
or_default-filled [] c d = refl
or_default-filled (x ∷ s) c d = refl

-- A configuration without a problem.
valid_lem :
    (c : Config)
    → validate c ≡ none
    → (is_nil c.hostname ≡ false)
      × (is_nil c.domains ≡ false)
      × ((c.database.driver ≡ codes "sqlite")
          ⊎ (c.database.driver ≡ codes "postgres") × (is_nil c.database.dsn ≡ false))
unfolding validate
valid_lem c h = ground (
  arith,
  h,
  text_beq_iff c.database.driver (codes "sqlite"),
  text_beq_iff c.database.driver (codes "postgres"),
)

default_dsn-filled :
    (driver dsn : Text) → driver ≡ codes "sqlite" → is_nil (default_dsn driver dsn) ≡ false
unfolding default_dsn
default_dsn-filled driver dsn e =
    rw ((text_beq_iff driver (codes "sqlite")).1 e)
      (or_default-filled dsn 47 (codes "data/mailserver.db"))

apply_defaults-IsComplete :
    (c : Config) → validate (apply_defaults c) ≡ none → IsComplete (apply_defaults c)
unfolding apply_defaults
apply_defaults-IsComplete c h =
    let (host, domain, database) = valid_lem (apply_defaults c) h in
    record {
      named = host;
      has_domain = domain;
      known_driver = elim database [ inl lite ↦ inl lite | inr (post, _) ↦ inr post ];
      has_dsn = elim database [
        | inl lite ↦
            default_dsn-filled (or_default c.database.driver (codes "sqlite")) c.database.dsn lite
        | inr (_, set) ↦ set
      ];
      has_interval =
          or_numbers-filled c.queue.retry_interval_minutes 1 (5 ∷ 15 ∷ 60 ∷ 240 ∷ 1440 ∷ []);
      retries = or_number-positive c.queue.max_retries 7;
      attempts = or_number-positive c.security.auth_rate_limit.max_attempts 4;
      window = or_number-positive c.security.auth_rate_limit.window_minutes 14;
      ban = or_number-positive c.security.auth_rate_limit.ban_minutes 14;
    }

-- A configuration that loads is complete.
pub load-IsComplete :
    (file : Option Config) (env : Env) (c : Config) → load file env ≡ inr c → IsComplete c
unfolding load
load-IsComplete none env c h = absurd (cc (h))
load-IsComplete (some file) env c h =
    let cfg = apply_defaults (apply_env_overrides env file) in
    elim (Option-cases (validate cfg)) [
      | inl fine ↦
          let same : cfg ≡ c = cc (rw (load, fine) at h) in
          subst IsComplete same (apply_defaults-IsComplete (apply_env_overrides env file) fine)
      | inr (p, bad) ↦ absurd (cc (rw (load, bad) at h))
    ]
