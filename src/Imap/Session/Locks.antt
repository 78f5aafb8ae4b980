-- ===== src/Imap/Session/Locks.antt =====
-- internal/imapbackend/session.go and webapi.go: two sessions that move messages between the same two
-- mailboxes in opposite directions, a lock at a time. Each side names the mailbox that its session
-- moves from; the other one is where it moves to. A mutex is held by one session, and a session that
-- wants one that is held makes no step.
pub mod Blocking
use mailroom.Prelude.{Bool, false, nat_eq, suc, text_eq, true, ℕ, ◌≡◌}

pub data Side : Type 0 where
  left right : Side

abbrev pub other : Side → Side
other left = right
other right = left

-- An entry of one side is replaced.
abbrev pub set {ℓ} : {A : Type ℓ} → Side → A → (Side → A) → Side → A
set left x f left = x
set left x f right = f right
set right x f left = f left
set right x f right = x

-- Where the session of an IMAP client stands in Move or Copy, with the number of messages to come:
-- before the source's lock, in the loop, in appendBytes with the lock of the destination, at its end.
pub data Stage : Type 0 where
  asked copying appending : ℕ → Stage
  ended : Stage

pub record System (P : Type 0) : Type 0 where
  pub locked : Side → Bool
  pub stage : Side → P

pub data Step (s : System Stage) : System Stage → Type 0 where
  lock_source :
      (i : Side) (n : ℕ)
      → s.stage i ≡ asked n
      → s.locked i ≡ false
      → Step s (record { locked = set i true s.locked; stage = set i (copying n) s.stage })
  lock_dest :
      (i : Side) (n : ℕ)
      → s.stage i ≡ copying (suc n)
      → s.locked (other i) ≡ false
      → Step s
          (record { locked = set (other i) true s.locked; stage = set i (appending n) s.stage })
  unlock_dest :
      (i : Side) (n : ℕ)
      → s.stage i ≡ appending n
      → Step s (record { locked = set (other i) false s.locked; stage = set i (copying n) s.stage })
  unlock_source :
      (i : Side)
      → s.stage i ≡ copying 0
      → Step s (record { locked = set i false s.locked; stage = set i ended s.stage })

pub data Reach {P : Type 0} (R : System P → System P → Type 0) (s : System P)
    : System P → Type 0 where
  start : Reach R s s
  later : {t r : System P} → Reach R s t → R t r → Reach R s r

abbrev pub unlocked : Side → Bool
unlocked i = false

-- The sessions before their first step.
abbrev pub begin : ℕ → ℕ → System Stage
begin n m = record { locked = unlocked; stage = set left (asked n) (λ i. asked m) }

-- Where a request of the web mail stands in moveTo: before and with the source's lock for the reading,
-- before and with the destination's, before and with the source's for the expunge, at its end.
pub data WebStage : Type 0 where
  to_read reading to_append adding to_expunge expunging left_off : WebStage

-- What a stage waits for, and the stage that follows.
pub data Waits (i : Side) : WebStage → Side → WebStage → Type 0 where
  wait_read : Waits i to_read i reading
  wait_append : Waits i to_append (other i) adding
  wait_expunge : Waits i to_expunge i expunging

-- What a stage holds, and the stage that follows.
pub data Holds (i : Side) : WebStage → Side → WebStage → Type 0 where
  held_read : Holds i reading i to_append
  held_append : Holds i adding (other i) to_expunge
  held_expunge : Holds i expunging i left_off

pub data WebStep (s : System WebStage) : System WebStage → Type 0 where
  lock :
      (i k : Side) (p q : WebStage)
      → Waits i p k q
      → s.stage i ≡ p
      → s.locked k ≡ false
      → WebStep s (record { locked = set k true s.locked; stage = set i q s.stage })
  unlock :
      (i k : Side) (p q : WebStage)
      → Holds i p k q
      → s.stage i ≡ p
      → WebStep s (record { locked = set k false s.locked; stage = set i q s.stage })

abbrev pub begin_web : System WebStage
begin_web = record { locked = unlocked; stage = λ i. to_read }
