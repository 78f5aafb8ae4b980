-- ===== src/Imap/Session.antt =====
-- internal/imapbackend/session.go: COPY and MOVE of the messages that a session's numbers name, with
-- the choice of those messages in mailbox.go. The answers that go to the client are the pairs of
-- UIDs and the sequence numbers.
use mailroom.Prelude.{
  some, List, Text, Bool, ℕ, [], ◌∷◌, ◌==◌, ◌&&◌, ◌+◌, ◌-◌, ◌%◌, ◌^◌, any, not, map, length, nat_eq,
  if◌then◌else◌, true, false,
}
pub mod Copying
mod Locks
mod Tests
use mailroom.Maildir.{Faults, err, ok, open_message, remove_message}
use mailroom.Store.{Db}
use mailroom.Store.Messages.{delete_message_by_key}
use mailroom.Imap.{Answer, Message, done, failed, maildir_failure}
use mailroom.Imap.Flags.{FlagNames}
use mailroom.Imap.Folder.{Folder, append_bytes}
use mailroom.Imap.Mailbox.{expunge_locked, static_num_range, uid_next}

-- A set of numbers, as ranges. `search_res` is the marker "$".
pub data NumSet : Type 0 where
  seq_set uid_set : List (ℕ × ℕ) → NumSet
  search_res : NumSet

-- staticNumSet; `saved` is the result of the last search that was to be kept.
unfoldable pub static_num_set : List (ℕ × ℕ) → List Message → NumSet → NumSet
unfolding static_num_range uid_next
static_num_set saved ms search_res = uid_set saved
static_num_set saved ms (seq_set ranges) =
    seq_set (map (static_num_range (length ms % 2 ^ 32)) ranges)
static_num_set saved ms (uid_set ranges) =
    uid_set (map (static_num_range ((uid_next ms + (2 ^ 32 - 1)) % 2 ^ 32)) ranges)

-- The library's test of a number against a set, and the number under which the client of the
-- session knows a message, 0 where it does not know it yet: now, and after expunges of some numbers are
-- queued.
pub record View : Type 0 where
  pub contains : List (ℕ × ℕ) → ℕ → Bool
  pub encode : ℕ → ℕ
  pub encode_after : List ℕ → ℕ → ℕ

unfoldable pub in_set : View → ℕ → Message → NumSet → Bool
in_set v n m (seq_set ranges) = not (v.encode n == 0) && v.contains ranges (v.encode n)
in_set v n m (uid_set ranges) = v.contains ranges m.uid
in_set v n m search_res = false

-- The messages that forEachLocked visits; `i` messages stand before the list.
unfoldable pub visited : View → NumSet → ℕ → List Message → List Message
unfolding in_set
visited v set i [] = []
visited v set i (m ∷ ms) =
    let rest = visited v set (i + 1) ms in if in_set v (i + 1) m set then m ∷ rest else rest

unfoldable pub for_each : View → List (ℕ × ℕ) → NumSet → List Message → List Message
unfolding static_num_set visited
for_each v saved set ms = visited v (static_num_set saved ms set) 0 ms

abbrev pub cons_pair : ℕ × ℕ → Answer (List (ℕ × ℕ)) → Answer (List (ℕ × ℕ))
cons_pair p (done pairs) = done (p ∷ pairs)
cons_pair p (failed e) = failed e

module _ (names : FlagNames) (f : Faults) (now : ℕ) (unique : Message → Text) where
  -- The loop of Copy and of Move: it stops at the first failure, and what it has copied stays. The
  -- pairs are the UIDs in the two folders.
  unfoldable pub copy_all :
      List Message → Folder → Folder × Db → (Folder × Db) × Answer (List (ℕ × ℕ))
  unfolding open_message append_bytes
  copy_all [] src s = (s, done [])
  copy_all (m ∷ ms) src s = elim (open_message f m.key src.maildir) [
    | err e ↦ (s, failed (maildir_failure e))
    | ok buf ↦
        let (s1, appended) = append_bytes names f now (unique m) buf (some m.date) m.flags s in
        let (s2, rest) = copy_all ms src s1 in
        elim appended [ failed e ↦ (s1, failed e) | done uid ↦ (s2, cons_pair (m.uid, uid) rest) ]
  ]

  -- Copy, to another folder
  unfoldable pub copy :
      View → List (ℕ × ℕ) → NumSet → Folder → Folder × Db → (Folder × Db) × Answer (List (ℕ × ℕ))
  unfolding for_each copy_all
  copy v saved set src s = copy_all (for_each v saved set src.mailbox.messages) src s

-- The second loop of Move, in the order of the map: here a file that is gone is an error.
unfoldable pub remove_moved :
    Faults → List Message → Folder × Db → (Folder × Db) × Answer (Unit {0})
unfolding remove_message delete_message_by_key
remove_moved f [] s = (s, done tt)
remove_moved f (m ∷ ms) (src, db) =
    let (md, removed) = remove_message f m.key src.maildir in
    let src1 : Folder = record src { maildir = md } in
    let rest = remove_moved f ms (src1, delete_message_by_key src.mailbox.db_id m.key db) in
    elim removed [ err e ↦ ((src1, db), failed (maildir_failure e)) | ok _ ↦ rest ]

unfoldable pub one_of : List Message → Message → Bool
unfolding any
one_of ms m = any (λ n. n.uid == m.uid) ms

-- Move after its first loop; the numbers that the client is told are those of the source, encoded,
-- also where that is 0.
unfoldable pub finish_move :
    Faults
    → (List ℕ → ℕ → ℕ)
    → (List Message → List Message)
    → List Message
    → Folder
    → (Folder × Db) × Answer (List (ℕ × ℕ))
    → (Folder × Folder × Db) × Answer (List (ℕ × ℕ) × List ℕ)
unfolding remove_moved expunge_locked one_of
finish_move f encode order chosen src ((dest, db), failed e) = ((src, dest, db), failed e)
finish_move f encode order chosen src ((dest, db), done pairs) =
    let ((src1, db1), removed) = remove_moved f (order chosen) (src, db) in
    let (nums, kept) = expunge_locked (one_of chosen) src.mailbox.messages in
    elim removed [
      | failed e ↦ ((src1, dest, db1), failed e)
      | done _ ↦ (
        (record src1 { mailbox = record src1.mailbox { messages = kept } }, dest, db1),
        done (pairs, map (encode nums) nums),
      )
    ]

-- Move, to another folder; `order` is the order of a map.
unfoldable pub move :
    FlagNames
    → Faults
    → ℕ
    → (Message → Text)
    → (List Message → List Message)
    → View
    → List (ℕ × ℕ)
    → NumSet
    → Folder × Folder × Db
    → (Folder × Folder × Db) × Answer (List (ℕ × ℕ) × List ℕ)
unfolding for_each copy_all finish_move
move names f now unique order v saved set (src, dest, db) =
    let chosen = for_each v saved set src.mailbox.messages in
    finish_move f v.encode_after order chosen src
      (copy_all names f now unique chosen src (dest, db))
