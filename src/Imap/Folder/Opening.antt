-- ===== src/Imap/Folder/Opening.antt =====
-- internal/imapbackend/webapi.go: opening a message.
use mailroom.Prelude.{
  true, find_first, nat_beq_iff, Bool-cases, List, [], change, false, inl, inr, nat_eq, refl, some,
  text_eq, to_lower, ℕ, Text, ◌==◌, ◌∷◌, ◌≡◌, ap, ◌∙◌,
}
use mailroom.Maildir.{Faults, err, ok, open_message, Result}
use mailroom.Store.{Db}
use mailroom.Imap.{Answer, Message, done, failed}
use mailroom.Imap.Flags.{FlagNames, FlagSet, add_flag, canonical_flag, has_flag}
use mailroom.Imap.Flags.Letters.{IsCapital, differs}
use mailroom.Imap.Flags.Storing.{any-add_flag}
use mailroom.Imap.Mailbox.{find_by_uid}
use mailroom.Imap.Folder.{
  Folder, change_flags, get_message, is_uid, mark_seen, with_flags, with_text,
}

still_unseen :
    (n : FlagNames) (set : FlagSet)
    → IsCapital n
    → has_flag n.seen set ≡ false
    → has_flag n.seen (add_flag n.seen set) ≡ false
unfolding has_flag canonical_flag
still_unseen n set h unseen =
    rw (any-add_flag (to_lower n.seen) n.seen set, differs n.seen n.seen h.0, unseen) refl

find-uid :
    (uid : ℕ) (msg : Message) (ms : List Message) → find_by_uid uid ms ≡ some msg → msg.uid ≡ uid
unfolding find_by_uid find_first
find-uid uid msg [] e = cc
find-uid uid msg (m ∷ ms) e = elim (Bool-cases (m.uid == uid)) [
  | inl here ↦
      let it : m ≡ msg = cc (rw (here) at e) in
      let same : m.uid ≡ uid = (nat_beq_iff m.uid uid).0 here in cc (it, same)
  | inr other ↦ find-uid uid msg ms (rw (other) at e)
]

find-change :
    (uid : ℕ) (flags : FlagSet) (msg : Message) (ms : List Message)
    → find_by_uid uid ms ≡ some msg
    → find_by_uid uid (change (is_uid msg.uid) (with_flags flags) ms) ≡ some (with_flags flags msg)
unfolding find_by_uid find_first change
find-change uid flags msg [] e = cc
find-change uid flags msg (m ∷ ms) e =
    let u = find-uid uid msg (m ∷ ms) e in
    elim (Bool-cases (m.uid == uid)) [
      | inl here ↦
          let it : m ≡ msg = cc (rw (here) at e) in
          let same : (m.uid == msg.uid) ≡ true = rw (u) here in
          rw (same, here) (ap (λ x. some (with_flags flags x)) it)
      | inr other ↦
          let apart : (m.uid == msg.uid) ≡ false = rw (u) other in
          rw (apart, other) (find-change uid flags msg ms (rw (other) at e))
    ]

with_text-state : (buf : Text) (r : (Folder × Db) × Answer (Unit {0})) → (with_text buf r).0 ≡ r.0
with_text-state buf (s, done _) = refl
with_text-state buf (s, failed e) = refl

mark_seen-messages :
    (names : FlagNames) (f : Faults) (msg : Message) (s : Folder) (db : Db)
    → has_flag names.seen msg.flags ≡ false
    → (mark_seen names f msg (s, db)).0.0.mailbox.messages
      ≡ change (is_uid msg.uid) (with_flags (add_flag names.seen msg.flags)) s.mailbox.messages
unfolding mark_seen change_flags
mark_seen-messages names f msg s db unseen = rw (mark_seen, unseen) refl

-- Opening an unseen message leaves it unseen in memory, where the library spells the flag with a
-- capital: the flag is set in that spelling and looked for in lower case.
pub opened_unseen :
    (names : FlagNames) (f : Faults) (uid : ℕ) (msg : Message) (s : Folder) (db : Db)
    → IsCapital names
    → find_by_uid uid s.mailbox.messages ≡ some msg
    → has_flag names.seen msg.flags ≡ false
    → ((m : Message) × (find_by_uid uid (get_message names f uid (s, db)).0.0.mailbox.messages
          ≡ some m)
        × (has_flag names.seen m.flags ≡ false))
unfolding get_message
opened_unseen names f uid msg s db h there unseen = go (open_message f msg.key s.maildir) refl
  where
    go :
        (r : Result Text)
        → open_message f msg.key s.maildir ≡ r
        → ((m : Message) × (find_by_uid uid (get_message names f uid (s, db)).0.0.mailbox.messages
              ≡ some m)
            × (has_flag names.seen m.flags ≡ false))
    go (err e) q = (msg, rw (get_message, there, q) there, unseen)
    go (ok buf) q =
        let flags = add_flag names.seen msg.flags in
        (
          with_flags flags msg,
          rw (get_message, there, q)
              (ap (λ (x : Folder × Db). find_by_uid uid x.0.mailbox.messages)
                  (with_text-state buf (mark_seen names f msg (s, db)))
                ∙ ap (λ l. find_by_uid uid l) (mark_seen-messages names f msg s db unseen)
                ∙ find-change uid flags msg s.mailbox.messages there),
          still_unseen names msg.flags h unseen,
        )
