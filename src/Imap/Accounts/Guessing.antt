-- ===== src/Imap/Accounts/Guessing.antt =====
-- internal/imapbackend/server.go with internal/ratelimit: guesses of passwords.
use mathlib.Core.List.{append_assoc, append-nil}
use mailroom.Prelude.{
  All, List, Text, [], ap, arith, false, is_nil, length, lookup, map, nat_eq, none, refl, same_refl,
  some, suc, sym, text_eq, to_lower, trim_space, true, ℕ, ◌++◌, ◌+◌, ◌<◌, ◌∙◌, ◌∷◌, ◌≡◌, ◌≤◌,
}
use mailroom.Ratelimit.{Event, Limiter, allowed, failure, record_failure, run, step, success, sweep}
use mailroom.Ratelimit.Count.{Burst, ban_at_max, count_failures, no_early_ban}
use mailroom.Ratelimit.Isolation.{IsMap}
use mailroom.Store.{Db}
use mailroom.Store.Users.{Bcrypt}
use mailroom.Imap.Accounts.{Limited, Users, blocked, login, note_failure, verified}

-- A login that is tried: the time, the name and the password.
abbrev pub Guess : Type 0
Guess = ℕ × Text × Text

abbrev fails : Text → Guess → ℕ × Event
fails ip g = (g.0, failure ip)

count-fails : (ip : Text) (gs : List Guess) → count_failures ip (map (fails ip) gs) ≡ length gs
unfolding count_failures
count-fails ip [] = refl
count-fails ip (g ∷ gs) = rw (same_refl ip, count-fails ip gs) refl

count-snoc :
    (ip : Text) (evs : List (ℕ × Event)) (g : Guess)
    → count_failures ip (evs ++ fails ip g ∷ []) ≡ suc (count_failures ip evs)
unfolding count_failures
count-snoc ip [] g = rw (same_refl ip) refl
count-snoc ip ((now, failure k) ∷ evs) g = ground (arith, count-snoc ip evs g)
count-snoc ip ((now, success k) ∷ evs) g = count-snoc ip evs g
count-snoc ip ((now, sweep) ∷ evs) g = count-snoc ip evs g

run-snoc :
    (l : Limiter) (evs : List (ℕ × Event)) (ev : ℕ × Event)
    → run l (evs ++ ev ∷ []) ≡ step (run l evs) ev
unfolding run
run-snoc l [] ev = refl
run-snoc l (x ∷ evs) ev = run-snoc (step l x) evs ev

module _ (b : Bcrypt) (ip : Text) (db : Db) where
  -- The logins from one address, one after another.
  abbrev pub guesses : List Guess → Limited × Users → Limited × Users
  guesses [] s = s
  guesses (g ∷ gs) s = guesses gs (login b g.0 ip g.1 g.2 db s).0

  -- A wrong guess in the window that starts at `t0`.
  abbrev pub Wrong : Limiter → ℕ → Guess → Type 0
  Wrong l t0 g =
      (verified b (to_lower (trim_space g.1)) g.2 db ≡ none) × (t0 ≤ g.0) × (g.0 < t0 + l.window)

  login-wrong :
      (l : Limiter) (users : Users) (g : Guess)
      → is_nil ip ≡ false
      → verified b (to_lower (trim_space g.1)) g.2 db ≡ none
      → allowed l g.0 ip ≡ true
      → login b g.0 ip g.1 g.2 db (some l, users) ≡ ((some (record_failure l g.0 ip), users), none)
  unfolding login blocked note_failure
  login-wrong l users g known wrong free = rw (login, wrong, free, note_failure, known) refl

  guesses-run :
      (l : Limiter) (users : Users) (t0 : ℕ) (evs : List (ℕ × Event)) (gs : List Guess)
      → IsMap l
      → lookup ip l.entries ≡ none
      → is_nil ip ≡ false
      → 0 < t0
      → All (Wrong l t0) gs
      → count_failures ip evs + length gs < l.max_attempts
      → guesses gs (some (run l evs), users) ≡ (some (run l (evs ++ map (fails ip) gs)), users)
  unfolding record_failure step
  guesses-run l users t0 evs [] u at known pos wrong few = rw (append-nil evs) refl
  guesses-run l users t0 evs (g ∷ gs) u at known pos ((w, from, _), wrong) few =
      let free = no_early_ban l ip evs g.0 u at (omega (arith, few)) (omega (arith, pos, from)) in
      let snoc = run-snoc l evs (fails ip g) in
      rw
        (
          login-wrong (run l evs) users g known w free,
          sym (append_assoc evs (fails ip g ∷ []) (map (fails ip) gs)),
        )
        (ap (λ x. guesses gs (some x, users)) (sym snoc)
          ∙ guesses-run l users t0 (evs ++ fails ip g ∷ []) gs u at known pos wrong
              (omega (arith, few, count-snoc ip evs g)))

  bursts :
      (l : Limiter) (t0 : ℕ) (gs : List Guess)
      → All (Wrong l t0) gs
      → All (Burst l ip t0) (map (fails ip) gs)
  bursts l t0 [] h = tt
  bursts l t0 (g ∷ gs) ((_, from, before), h) = ((from, before, λ e. cc), bursts l t0 gs h)

  guesses-snoc :
      (gs : List Guess) (g : Guess) (s : Limited × Users)
      → guesses (gs ++ g ∷ []) s ≡ (login b g.0 ip g.1 g.2 db (guesses gs s)).0
  guesses-snoc [] g s = refl
  guesses-snoc (x ∷ gs) g s = guesses-snoc gs g (login b x.0 ip x.1 x.2 db s).0

  login-banned :
      (l : Limiter) (users : Users) (later : ℕ) (username password : Text)
      → is_nil ip ≡ false
      → allowed l later ip ≡ false
      → (login b later ip username password db (some l, users)).1 ≡ none
  unfolding login blocked
  login-banned l users later username password known banned = rw (banned, known, login) refl

  -- Guessing is stopped: where an address has no entry, and as many wrong guesses as the limiter's
  -- maximum come from it within one window, no login from it succeeds up to the end of the ban, with
  -- the right password or not.
  pub guessing_stopped :
      (l : Limiter) (users : Users) (t0 later : ℕ) (gs : List Guess) (g : Guess)
      (username password : Text)
      → IsMap l
      → lookup ip l.entries ≡ none
      → is_nil ip ≡ false
      → 0 < t0
      → All (Wrong l t0) gs
      → Wrong l t0 g
      → suc (length gs) ≡ l.max_attempts
      → later ≤ g.0 + l.ban_duration
      → (login b later ip username password db (guesses (gs ++ g ∷ []) (some l, users))).1 ≡ none
  unfolding run count_failures
  guessing_stopped l users t0 later gs g username password u at known pos wrong (w, from, before)
        full le =
      let evs = map (fails ip) gs in
      let count = count-fails ip gs in
      let free =
        no_early_ban l ip evs g.0 u at (omega (arith, full, count)) (omega (arith, pos, from)) in
      let ban =
        ban_at_max l ip t0 g.0 later evs u at (bursts l t0 gs wrong) before
          (omega (arith, full, count)) in
      let reached = guesses-run l users t0 [] gs u at known pos wrong (omega (arith, full)) in
      rw (guesses-snoc gs g (some l, users), reached, login-wrong (run l evs) users g known w free)
        (login-banned (record_failure (run l evs) g.0 ip) users later username password known
          (ban ∙ ground (arith, le)))
