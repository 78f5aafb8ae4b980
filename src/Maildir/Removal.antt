-- ===== src/Maildir/Removal.antt =====
-- internal/maildir/maildir.go: `Remove` removes the message of its key alone.
use mailroom.Prelude.{
  Bool-cases, ap, false, true, ◌∙◌, Option-cases, Text, arith, if◌then◌else◌, inl, inr, nat_eq,
  none, refl, text_beq_iff, text_eq, ◌==◌, ◌≡◌,
}
use mailroom.Maildir.{Faults, find, Maildir, entries, no_faults, remove_message, scan}
use mailroom.Maildir.Bodies.{Keeps}
use mailroom.Maildir.Flags.{answer}
use mailroom.Maildir.Lookup.{IsMaildir, node_in, place_of, remove-Once, scan-remove}

-- Removing a key removes its message, wherever it lies, and answers "not exist" where there is none;
-- every other key's message stays as it is, and each key still names one message at most. No call of
-- the file system fails.
remove_message_lem :
    (key other : Text) (m : Maildir)
    → IsMaildir m
    → IsMaildir (remove_message no_faults key m).0
      × ((remove_message no_faults key m).1 ≡ answer (place_of key m))
      × (place_of other (remove_message no_faults key m).0
          ≡ (if key == other then none else place_of other m))
unfolding remove_message place_of
remove_message_lem key other m v = elim (Option-cases (scan key (entries m.new))) [
  | inr ((name, node), e) ↦
      let gone = v.apart key (name, node) e in
      let cut = λ (k : Text). scan-remove key k (entries m.new) name node v.once_new e in
      rw (e, remove_message)
        (
          record {
            once_new = remove-Once name (entries m.new) v.once_new;
            once_cur = v.once_cur;
            apart = λ k p q. ground (arith, q, cut k, v.apart k p, text_beq_iff key k);
          },
          refl,
          ground (arith, cut other, gone, text_beq_iff key other),
        )
  | inl e ↦ elim (Option-cases (scan key (entries m.cur))) [
    | inr ((name, node), c) ↦
        let cut = λ (k : Text). scan-remove key k (entries m.cur) name node v.once_cur c in
        rw (e, c, remove_message)
          (
            record {
              once_new = v.once_new;
              once_cur = remove-Once name (entries m.cur) v.once_cur;
              apart = λ k p q. ground (arith, q, cut k, v.apart k p, text_beq_iff key k);
            },
            refl,
            ground (arith, e, cut other, text_beq_iff key other),
          )
    | inl c ↦ rw (e, c, remove_message) (v, refl, ground (arith, e, c, text_beq_iff key other))
  ]
]

remove_message-stuck :
    (f : Faults) (key : Text) (m : Maildir) → f.unlink ≡ true → (remove_message f key m).0 ≡ m
unfolding remove_message find
remove_message-stuck f key m h = ground (arith, h)

remove_message-working :
    (f : Faults) (key : Text) (m : Maildir)
    → f.read_dir ≡ false
    → f.unlink ≡ false
    → remove_message f key m ≡ remove_message no_faults key m
unfolding remove_message find
remove_message-working f key m reads cuts = ground (arith, reads, cuts)

-- Whatever fails, removing a key keeps the Maildir valid and the other keys' files.
pub remove_message-Keeps :
    (f : Faults) (key : Text) (m : Maildir) → IsMaildir m → Keeps m (remove_message f key m).0 key
unfolding remove_message find
remove_message-Keeps f key m v = elim (Bool-cases f.read_dir) [
  | inl blind ↦ rw (remove_message, blind) (record { valid = v; others = λ k apart. refl })
  | inr reads ↦ elim (Bool-cases f.unlink) [
    | inl stuck ↦
        rw (remove_message-stuck f key m stuck) (record { valid = v; others = λ k apart. refl })
    | inr cuts ↦ rw (remove_message-working f key m reads cuts) (record {
      valid = (remove_message_lem key key m v).0;
      others = λ k apart. ap node_in ((remove_message_lem key k m v).2 ∙ rw (apart) refl);
    })
  ]
]
