-- ===== src/Imap/Status/Counting.antt =====
-- internal/imapbackend/mailbox.go: the numbers that STATUS and SELECT report.
use mailroom.Prelude.{
  All, Bool-cases, List, Text, [], ap, arith, if◌then◌else◌, inl, inr, keep, length, ltb, nat_eq,
  not, refl, some, suc, text_eq, true, ℕ, ◌%◌, ◌+◌, ◌<◌, ◌==◌, ◌^◌, ◌∷◌, ◌≡◌, ◌≤◌,
}
use mailroom.Imap.{Message}
use mailroom.Imap.Flags.{FlagNames, has_flag}
use mailroom.Imap.Mailbox.{Mailbox, count_by_flag, expunge_locked, max_uid, uid_next}
use mailroom.Imap.Mailbox.Expunge.{expunge_locked_lem}
use mailroom.Imap.Status.{StatusOptions, status_data, sub_u32}

max_uid-le :
    (bound highest : ℕ) (ms : List Message)
    → highest ≤ bound
    → All (λ m. m.uid ≤ bound) ms
    → max_uid ms highest ≤ bound
unfolding max_uid
max_uid-le bound highest [] h all = h
max_uid-le bound highest (m ∷ ms) h all =
    max_uid-le bound (if ltb highest m.uid then m.uid else highest) ms (ground (arith, h, all.0))
      all.1

below_gone :
    (uid : ℕ) (ms : List Message)
    → All (λ m. m.uid ≤ suc uid) ms
    → All (λ m. m.uid ≤ uid) (keep (λ m. not (m.uid == suc uid)) ms)
unfolding keep
below_gone uid [] h = tt
below_gone uid (m ∷ ms) h = elim (Bool-cases (m.uid == suc uid)) [
  | inl gone ↦ rw (keep, gone) (below_gone uid ms h.1)
  | inr stays ↦ rw (keep, stays) ((ground (arith, h.0, stays)), below_gone uid ms h.1)
]

-- Expunging the message with the highest UID brings the reported UIDNEXT down to a UID that is used
-- up: it is computed from the messages that are left, and not from the counter of the store. So
-- UIDNEXT is no longer above every UID that was given, as RFC 3501 has it.
pub uid_next-expunged :
    (uid : ℕ) (ms : List Message)
    → All (λ m. m.uid ≤ suc uid) ms
    → suc uid < 2 ^ 32
    → uid_next (expunge_locked (λ m. m.uid == suc uid) ms).1 ≤ suc uid
unfolding uid_next
uid_next-expunged uid ms h small =
    let kept = (expunge_locked_lem (λ m. m.uid == suc uid) ms).0 in
    rw (kept) (
      let le =
        max_uid-le uid 0 (keep (λ m. not (m.uid == suc uid)) ms) (omega arith)
          (below_gone uid ms h) in
      omega (arith, le, small))

-- The messages without the flag.
abbrev pub count_unseen : Text → List Message → ℕ
count_unseen seen [] = 0
count_unseen seen (m ∷ ms) =
    let rest = count_unseen seen ms in if has_flag seen m.flags then rest else suc rest

count-both :
    (seen : Text) (ms : List Message) → count_by_flag seen ms + count_unseen seen ms ≡ length ms
unfolding count_by_flag
count-both seen [] = refl
count-both seen (m ∷ ms) = ground (arith, count-both seen ms)

sub_u32-sum : (a b n : ℕ) → a + b ≡ n → n < 2 ^ 32 → sub_u32 (n % 2 ^ 32) (a % 2 ^ 32) ≡ b
unfolding sub_u32
sub_u32-sum a b n e h = omega (arith, e, h)

-- STATUS counts as unseen just the messages without the flag, in 32 bits and without an underflow, in
-- a mailbox of fewer than 2 ^ 32 messages; and the number of messages is the true one.
status-counts :
    (names : FlagNames) (options : StatusOptions) (mbox : Mailbox)
    → options.num_messages ≡ true
    → options.num_unseen ≡ true
    → length mbox.messages < 2 ^ 32
    → ((status_data names options mbox).num_messages ≡ some (length mbox.messages))
      × ((status_data names options mbox).num_unseen ≡ some (count_unseen names.seen mbox.messages))
unfolding status_data
status-counts names options mbox m u small =
    let whole : length mbox.messages % 2 ^ 32 ≡ length mbox.messages = omega (arith, small) in
    let rest =
      sub_u32-sum (count_by_flag names.seen mbox.messages) (count_unseen names.seen mbox.messages)
        (length mbox.messages) (count-both names.seen mbox.messages) small in
    rw (status_data, m, u) (ap some whole, ap some rest)
