-- ===== src/Imap/Session/Tests.antt =====
-- Runs of internal/imapbackend/session.go: one message in the inbox, and two sessions.
use mailroom.Prelude.{
  arith, refl, Bool, Text, [], codes, leb, nat_eq, some, true, ℕ, ◌&&◌, ◌∷◌, ◌≡◌, ◌⊎◌, any,
}
use mailroom.Maildir.{file, no_faults, scan}
use mailroom.Maildir.Bodies.{IsFresh}
use mailroom.Maildir.Lookup.{IsMaildir, place_of}
use mailroom.Store.{Db, empty_db}
use mailroom.Imap.{Message}
use mailroom.Imap.Flags.{FlagNames}
use mailroom.Imap.Folder.{Folder}
use mailroom.Imap.Session.{View, NumSet, seq_set, move, for_each}
use mailroom.Imap.Session.Copying.{Moved, move-Moved}
use mailroom.Imap.Session.Locks.{
  Reach, Stage, Step, System, WebStage, WebStep, begin, begin_web, copying, later, left, left_off,
  lock, reading, right, set, start, to_read, unlocked, wait_read,
}
use mailroom.Imap.Session.Locks.Blocking.{deadlock, moves-progress}

abbrev names : FlagNames
names = record {
  seen = codes "\\Seen";
  answered = codes "\\Answered";
  flagged = codes "\\Flagged";
  deleted = codes "\\Deleted";
  draft = codes "\\Draft";
}

abbrev letter : Message
letter = record { uid = 4; key = codes "a"; date = 1; size = 2; flags = [] }

abbrev inbox : Folder
inbox = record {
  maildir = record {
    tmp = some [];
    new = some [];
    cur = some ((codes "a:2,", file (codes "hi") 1) ∷ []);
  };
  mailbox = record {
    db_id = 1;
    name = codes "INBOX";
    uid_validity = 9;
    subscribed = true;
    messages = letter ∷ [];
  };
}

abbrev trash : Folder
trash = record {
  maildir = record { tmp = some []; new = some []; cur = some [] };
  mailbox = record {
    db_id = 2;
    name = codes "Trash";
    uid_validity = 9;
    subscribed = true;
    messages = [];
  };
}

abbrev db : Db
db = record empty_db {
  mailboxes =
      record {
        id = 2;
        user_id = 1;
        name = codes "Trash";
        uid_validity = 9;
        uid_next = 7;
        subscribed = true;
      }
      ∷ [];
}

abbrev in_range : ℕ → ℕ × ℕ → Bool
in_range n (low, high) = leb low n && leb n high

-- A client that knows every message under its place.
abbrev view : View
view = record {
  contains = λ ranges n. any (in_range n) ranges;
  encode = λ n. n;
  encode_after = λ nums n. n;
}

abbrev prefixed : Message → Text
prefixed m = b'c' ∷ m.key

abbrev everything : NumSet
everything = seq_set ((1, 0) ∷ [])

inbox-IsMaildir : IsMaildir inbox.maildir
unfolding scan
inbox-IsMaildir = record { once_new = tt; once_cur = (refl, tt); apart = λ k p q. cc q }

trash-IsMaildir : IsMaildir trash.maildir
unfolding scan
trash-IsMaildir = record { once_new = tt; once_cur = tt; apart = λ k p q. cc q }

new_name-IsFresh : IsFresh (codes "ca") trash.maildir
unfolding scan place_of
new_name-IsFresh = record { plain = omega arith; own = refl; unused = refl }

move-Moved_example :
    let ((src1, dest1, _), answer) =
      move names no_faults 5 prefixed (λ l. l) view [] everything (inbox, trash, db) in
    Moved no_faults 5 prefixed
      (λ l. l)
      (for_each view [] everything inbox.mailbox.messages)
      inbox
      trash
      src1
      dest1
      answer
unfolding for_each any
move-Moved_example =
    move-Moved names no_faults 5 prefixed (λ l. l) view [] everything inbox trash db
      (new_name-IsFresh, tt, tt) trash-IsMaildir inbox-IsMaildir

deadlock_example :
    (s : System Stage) × Reach Step (begin 1 3) s
    × (s.stage left ≡ copying 1)
    × (s.stage right ≡ copying 3)
    × ((t : System Stage) → Step s t → ⊥)
deadlock_example = deadlock 0 2

abbrev one_reads : System WebStage
one_reads = record { locked = set left true unlocked; stage = set left reading begin_web.stage }

moves-progress_example :
    ((t : System WebStage) × WebStep one_reads t)
    ⊎ ((one_reads.stage left ≡ left_off) × (one_reads.stage right ≡ left_off))
moves-progress_example =
    moves-progress one_reads (later start (lock left left to_read reading wait_read refl refl))
