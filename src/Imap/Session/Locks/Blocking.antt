-- ===== src/Imap/Session/Locks/Blocking.antt =====
-- internal/imapbackend/session.go and webapi.go: where two sessions block each other, and where not.
use mailroom.Prelude.{
  Bool, true, false, ℕ, suc, ◌≡◌, refl, ◌⊎◌, inl, inr, ap, ◌∙◌, sym, Bool-cases, subst,
}
use mailroom.Imap.Session.Locks.{
  Side, left, right, other, set, Stage, copying, System, Step, lock_source, lock_dest, unlock_dest,
  unlock_source, Reach, start, later, unlocked, begin, WebStage, to_read, reading, to_append,
  adding, to_expunge, expunging, left_off, Waits, wait_read, wait_append, wait_expunge, Holds,
  held_read, held_append, held_expunge, WebStep, lock, unlock, begin_web,
}

-- Both sessions have the lock of their source and a message to copy.
abbrev pub face_to_face : ℕ → ℕ → System Stage
face_to_face n m = record {
  locked = set right true (set left true unlocked);
  stage = set right (copying (suc m)) (set left (copying (suc n)) (begin (suc n) (suc m)).stage);
}

no-Step : (n m : ℕ) (t : System Stage) → Step (face_to_face n m) t → ⊥
no-Step n m t (lock_source left k e f) = cc f
no-Step n m t (lock_source right k e f) = cc f
no-Step n m t (lock_dest left k e f) = cc f
no-Step n m t (lock_dest right k e f) = cc f
no-Step n m t (unlock_dest left k e) = cc e
no-Step n m t (unlock_dest right k e) = cc e
no-Step n m t (unlock_source left e) = cc e
no-Step n m t (unlock_source right e) = cc e

-- Two sessions that copy or move messages between the same two mailboxes in opposite directions come
-- to a state in which neither has ended and neither makes another step: each holds the lock of its
-- source and waits for that of the other, however many messages they have, from one on.
pub deadlock :
    (n m : ℕ)
    → (s : System Stage) × Reach Step (begin (suc n) (suc m)) s
      × (s.stage left ≡ copying (suc n))
      × (s.stage right ≡ copying (suc m))
      × ((t : System Stage) → Step s t → ⊥)
deadlock n m = (
  face_to_face n m,
  later (later start (lock_source left (suc n) refl refl)) (lock_source right (suc m) refl refl),
  refl,
  refl,
  no-Step n m,
)

abbrev same : Side → Side → Bool
same left left = true
same right right = true
same _ _ = false

-- The locks that a session holds at its stage.
abbrev pub held : Side → WebStage → Side → Bool
held i reading k = same i k
held i adding k = same (other i) k
held i expunging k = same i k
held i _ k = false

Waits-free : (i k j : Side) (p q : WebStage) → Waits i p k q → held i p j ≡ false
Waits-free i k j p q wait_read = refl
Waits-free i k j p q wait_append = refl
Waits-free i k j p q wait_expunge = refl

Waits-takes : (i k j : Side) (p q : WebStage) → Waits i p k q → held i q j ≡ same k j
Waits-takes i k j p q wait_read = refl
Waits-takes i k j p q wait_append = refl
Waits-takes i k j p q wait_expunge = refl

Holds-has : (i k j : Side) (p q : WebStage) → Holds i p k q → held i p j ≡ same k j
Holds-has i k j p q held_read = refl
Holds-has i k j p q held_append = refl
Holds-has i k j p q held_expunge = refl

Holds-frees : (i k j : Side) (p q : WebStage) → Holds i p k q → held i q j ≡ false
Holds-frees i k j p q held_read = refl
Holds-frees i k j p q held_append = refl
Holds-frees i k j p q held_expunge = refl

-- A lock is held by one of the two, and by nobody where it is free.
abbrev One : Bool → Bool → Bool → Type 0
One true true false = Unit
One true false true = Unit
One false false false = Unit
One _ _ _ = ⊥

abbrev IsHeld : System WebStage → Type 0
IsHeld s = (j : Side) → One (s.locked j) (held left (s.stage left) j) (held right (s.stage right) j)

One-swap : (l a b : Bool) → One l a b → One l b a
One-swap true true false h = tt
One-swap true false true h = tt
One-swap false false false h = tt
One-swap true true true h = absurd h
One-swap true false false h = absurd h
One-swap false true b h = absurd h
One-swap false false true h = absurd h

One-lock : (l a b : Bool) → One l a b → l ≡ false → One true true b
One-lock false false false h e = tt
One-lock true a b h e = cc e
One-lock false true b h e = absurd h
One-lock false false true h e = absurd h

One-unlock : (l b : Bool) → One l true b → One false false b
One-unlock true false h = tt
One-unlock true true h = absurd h
One-unlock false b h = absurd h

lock-One :
    (k j : Side) (locked : Side → Bool) (a b : Bool)
    → One (locked j) a b
    → a ≡ false
    → locked k ≡ false
    → One (set k true locked j) (same k j) b
lock-One left left locked a b h e f = One-lock (locked left) a b h f
lock-One right right locked a b h e f = One-lock (locked right) a b h f
lock-One left right locked a b h e f = subst (λ x. One (locked right) x b) e h
lock-One right left locked a b h e f = subst (λ x. One (locked left) x b) e h

unlock-One :
    (k j : Side) (locked : Side → Bool) (a b : Bool)
    → One (locked j) a b
    → a ≡ same k j
    → One (set k false locked j) false b
unlock-One left left locked a b h e =
    One-unlock (locked left) b (subst (λ x. One (locked left) x b) e h)
unlock-One right right locked a b h e =
    One-unlock (locked right) b (subst (λ x. One (locked right) x b) e h)
unlock-One left right locked a b h e = subst (λ x. One (locked right) x b) e h
unlock-One right left locked a b h e = subst (λ x. One (locked left) x b) e h

WebStep-IsHeld : (s t : System WebStage) → IsHeld s → WebStep s t → IsHeld t
WebStep-IsHeld s t h (lock left k p q w e f) j =
    let was : held left (s.stage left) j ≡ false =
      ap (λ x. held left x j) e ∙ Waits-free left k j p q w in
    subst (λ x. One (set k true s.locked j) x (held right (s.stage right) j))
      (sym (Waits-takes left k j p q w))
      (lock-One k j s.locked (held left (s.stage left) j) (held right (s.stage right) j) (h j) was
        f)
WebStep-IsHeld s t h (lock right k p q w e f) j =
    let was : held right (s.stage right) j ≡ false =
      ap (λ x. held right x j) e ∙ Waits-free right k j p q w in
    subst (λ x. One (set k true s.locked j) (held left (s.stage left) j) x)
      (sym (Waits-takes right k j p q w))
      (One-swap _ _ _ (
        lock-One k j s.locked (held right (s.stage right) j) (held left (s.stage left) j)
          (One-swap _ _ _ (h j)) was f))
WebStep-IsHeld s t h (unlock left k p q w e) j =
    let was : held left (s.stage left) j ≡ same k j =
      ap (λ x. held left x j) e ∙ Holds-has left k j p q w in
    subst (λ x. One (set k false s.locked j) x (held right (s.stage right) j))
      (sym (Holds-frees left k j p q w))
      (unlock-One k j s.locked (held left (s.stage left) j) (held right (s.stage right) j) (h j)
        was)
WebStep-IsHeld s t h (unlock right k p q w e) j =
    let was : held right (s.stage right) j ≡ same k j =
      ap (λ x. held right x j) e ∙ Holds-has right k j p q w in
    subst (λ x. One (set k false s.locked j) (held left (s.stage left) j) x)
      (sym (Holds-frees right k j p q w))
      (One-swap _ _ _ (
        unlock-One k j s.locked (held right (s.stage right) j) (held left (s.stage left) j)
          (One-swap _ _ _ (h j)) was))

Reach-IsHeld : (s : System WebStage) → Reach WebStep begin_web s → IsHeld s
Reach-IsHeld s start = λ j. tt
Reach-IsHeld s (later {t} r step) = WebStep-IsHeld t s (Reach-IsHeld t r) step

-- What a stage is about: it waits for a lock, holds one, or is the last.
stage_cases :
    (i : Side) (p : WebStage)
    → ((k : Side) × (q : WebStage) × Waits i p k q)
      ⊎ (((k : Side) × (q : WebStage) × Holds i p k q) ⊎ (p ≡ left_off))
stage_cases i to_read = inl (_, _, wait_read)
stage_cases i to_append = inl (_, _, wait_append)
stage_cases i to_expunge = inl (_, _, wait_expunge)
stage_cases i reading = inr (inl (_, _, held_read))
stage_cases i adding = inr (inl (_, _, held_append))
stage_cases i expunging = inr (inl (_, _, held_expunge))
stage_cases i left_off = inr (inr refl)

abbrev CanStep : System WebStage → Type 0
CanStep s = (t : System WebStage) × WebStep s t

One-other : (l a b : Bool) → One l a b → l ≡ true → a ≡ false → b ≡ true
One-other true false true h e f = refl
One-other true true b h e f = cc f
One-other true false false h e f = absurd h
One-other false a b h e f = cc e

-- A session that holds a lock can give it back.
holder_steps : (s : System WebStage) (i k : Side) → held i (s.stage i) k ≡ true → CanStep s
holder_steps s i k h = go (s.stage i) refl h
  where
    go : (p : WebStage) → s.stage i ≡ p → held i p k ≡ true → CanStep s
    go reading e g = (_, unlock i _ _ _ held_read e)
    go adding e g = (_, unlock i _ _ _ held_append e)
    go expunging e g = (_, unlock i _ _ _ held_expunge e)
    go to_read e g = cc g
    go to_append e g = cc g
    go to_expunge e g = cc g
    go left_off e g = cc g

side_steps : (s : System WebStage) (i : Side) → IsHeld s → CanStep s ⊎ (s.stage i ≡ left_off)
side_steps s i h = elim (stage_cases i (s.stage i)) [
  | inr (inr off) ↦ inr off
  | inr (inl (k, q, holds)) ↦ inl (_, unlock i k (s.stage i) q holds refl)
  | inl (k, q, waits) ↦ elim (Bool-cases (s.locked k)) [
    | inr free ↦ inl (_, lock i k (s.stage i) q waits refl free)
    | inl busy ↦ inl (waiter i k q waits busy)
  ]
]
  where
    waiter : (i k : Side) (q : WebStage) → Waits i (s.stage i) k q → s.locked k ≡ true → CanStep s
    waiter left k q w busy =
        holder_steps s right k (One-other (s.locked k) _ _ (h k) busy (Waits-free left k k _ q w))
    waiter right k q w busy =
        holder_steps s left k
          (One-other (s.locked k) _ _ (One-swap _ _ _ (h k)) busy (Waits-free right k k _ q w))

-- Two requests of the web mail that move messages in opposite directions never block each other: in
-- every state that they reach, both have ended or one of them can go on.
pub moves-progress :
    (s : System WebStage)
    → Reach WebStep begin_web s
    → ((t : System WebStage) × WebStep s t)
      ⊎ ((s.stage left ≡ left_off) × (s.stage right ≡ left_off))
moves-progress s r =
    let h = Reach-IsHeld s r in
    elim (side_steps s left h) [
      | inl step ↦ inl step
      | inr off ↦ elim (side_steps s right h) [ inl step ↦ inl step | inr off1 ↦ inr (off, off1) ]
    ]
