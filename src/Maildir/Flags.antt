-- ===== src/Maildir/Flags.antt =====
-- internal/maildir/maildir.go: `SetFlags` and `Remove` touch the message of their key alone.
use mailroom.Maildir.Naming.{split_flags-suffix}
use mailroom.Prelude.{
  Lacks, Option, ◌⊎◌, Option-cases, Text, ap, arith, same_refl, if◌then◌else◌, inl, inr, insert,
  nat_eq, none, refl, remove, some, text_beq_iff, text_eq, ◌==◌, ◌≡◌,
}
use mailroom.Maildir.{
  Entries, Error, io, into_cur, Maildir, Node, Place, Result, entries, err, in_cur, no_faults,
  not_exist, ok, scan, set_flags,
}
use mailroom.Maildir.Lookup.{
  IsMaildir, insert-Once, key_of, place_of, remove-Once, scan-insert, scan-remove,
}
use mailroom.Maildir.Names.{flagged_name}

key_of-flagged : (key flags : Text) → Lacks b':' key → key_of (flagged_name key flags) ≡ key
unfolding flagged_name
key_of-flagged key flags h = ap (λ (p : Text × Text). p.0) (split_flags-suffix key _ h)

-- A message of `new` goes to `cur` under another name with its key.
module _ (m : Maildir) (v : IsMaildir m) (key name fresh : Text) (node : Node) where
  from_new : Maildir
  from_new = record m {
    new = some (remove name (entries m.new));
    cur = some (insert fresh node (entries m.cur));
  }

  from_cur : Maildir
  from_cur = record m { cur = some (insert fresh node (remove name (entries m.cur))) }

  module _ (same : key_of fresh ≡ key) where
    place-from_new :
        (other : Text)
        → scan key (entries m.new) ≡ some (name, node)
        → place_of other from_new
          ≡ (if key == other then some (in_cur, fresh, node) else place_of other m)
    unfolding place_of from_new
    place-from_new other at =
        let gone = v.apart key (name, node) at in
        ground (
          arith,
          gone,
          same,
          scan-remove key other (entries m.new) name node v.once_new at,
          scan-insert other fresh node (entries m.cur),
        )

    IsMaildir-from_new : scan key (entries m.new) ≡ some (name, node) → IsMaildir from_new
    unfolding from_new
    IsMaildir-from_new at =
        let gone : scan (key_of fresh) (entries m.cur) ≡ none =
          rw same (v.apart key (name, node) at) in
        record {
          once_new = remove-Once name (entries m.new) v.once_new;
          once_cur = insert-Once fresh node (entries m.cur) v.once_cur gone;
          apart = λ k p q. ground (
            arith,
            q,
            same,
            v.apart k p,
            text_beq_iff key k,
            scan-remove key k (entries m.new) name node v.once_new at,
            scan-insert k fresh node (entries m.cur) gone,
          );
        }

    place-from_cur :
        (other : Text)
        → scan key (entries m.new) ≡ none
        → scan key (entries m.cur) ≡ some (name, node)
        → place_of other from_cur
          ≡ (if key == other then some (in_cur, fresh, node) else place_of other m)
    unfolding place_of from_cur
    place-from_cur other none_new at = ground (
      arith,
      same,
      same_refl key,
      text_beq_iff key other,
      scan-remove key other (entries m.cur) name node v.once_cur at,
      scan-remove key key (entries m.cur) name node v.once_cur at,
      scan-insert other fresh node (remove name (entries m.cur)),
    )

    IsMaildir-from_cur :
        scan key (entries m.new) ≡ none
        → scan key (entries m.cur) ≡ some (name, node)
        → IsMaildir from_cur
    unfolding from_cur
    IsMaildir-from_cur none_new at =
        let gone : scan (key_of fresh) (remove name (entries m.cur)) ≡ none = ground (
          arith,
          same,
          same_refl key,
          scan-remove key key (entries m.cur) name node v.once_cur at,
        ) in
        record {
          once_new = v.once_new;
          once_cur =
              insert-Once fresh node (remove name (entries m.cur))
                (remove-Once name (entries m.cur) v.once_cur) gone;
          apart = λ k p q. ground (
            arith,
            q,
            same,
            v.apart k p,
            text_beq_iff key k,
            scan-remove key k (entries m.cur) name node v.once_cur at,
            scan-insert k fresh node (remove name (entries m.cur)) gone,
          );
        }

-- Where a message is once its flags are set.
abbrev pub flagged : Text → Option (Place × Text × Node) → Option (Place × Text × Node)
flagged name none = none
flagged name (some p) = some (in_cur, name, p.2)

-- What a call on a key answers.
abbrev pub answer : Option (Place × Text × Node) → Result (Unit {0})
answer none = err not_exist
answer (some p) = ok tt

into_cur-some :
    (cur : Option Entries) (d : Entries) (m moved : Maildir)
    → cur ≡ some d
    → into_cur cur m moved ≡ (moved, ok tt)
unfolding into_cur
into_cur-some none d m moved e = absurd (cc (e))
into_cur-some (some c) d m moved e = refl

into_cur-none :
    (cur : Option Entries) (m moved : Maildir) → cur ≡ none → into_cur cur m moved ≡ (m, err io)
unfolding into_cur
into_cur-none none m moved e = refl
into_cur-none (some c) m moved e = absurd (cc (e))

-- Where `cur` is there, the message has moved into it, and every other key's message is as it was;
-- where it is missing, the call has failed and changed nothing.
abbrev pub FlagsSet : Text → Text → Text → Maildir → Maildir × Result (Unit {0}) → Type 0
FlagsSet key flags other m r =
    ((d : Entries) × (m.cur ≡ some d)
      × (r.1 ≡ answer (place_of key m))
      × (place_of other r.0 ≡ (
          if key == other
          then flagged (flagged_name key flags) (place_of key m)
          else place_of other m)))
    ⊎ (m.cur ≡ none) × (r.0 ≡ m) × ((e : Error) × (r.1 ≡ err e))

-- Setting the flags of a key's message moves it into `cur`, under the key and the normalised
-- letters and with its file; where no message has the key the answer is "not exist". Every other
-- key's message stays as it is, and each key still names one message at most. Where `cur` itself is
-- missing the call fails and nothing changes. The key has no colon, and no call of the file system
-- fails for another reason.
pub set_flags_lem :
    (key flags other : Text) (m : Maildir)
    → Lacks b':' key
    → IsMaildir m
    → IsMaildir (set_flags no_faults key flags m).0
      × FlagsSet key flags other m (set_flags no_faults key flags m)
unfolding set_flags place_of from_new from_cur
set_flags_lem key flags other m h v =
    let same = key_of-flagged key flags h in
    let fresh = flagged_name key flags in
    elim (Option-cases m.cur) [
      | inl missing ↦ elim (Option-cases (scan key (entries m.new))) [
        | inr ((name, node), e) ↦
            rw (set_flags, e, into_cur-none m.cur m (from_new m v key name fresh node) missing)
              (v, inr (missing, refl, (_, refl)))
        | inl e ↦
            let c : scan key (entries m.cur) ≡ none = rw (missing) refl in
            rw (set_flags, e, c) (v, inr (missing, refl, (_, refl)))
      ]
      | inr (d, there) ↦ elim (Option-cases (scan key (entries m.new))) [
        | inr ((name, node), e) ↦
            rw (set_flags, e, into_cur-some m.cur d m (from_new m v key name fresh node) there)
              (
                IsMaildir-from_new m v key name fresh node same e,
                inl (d, there, refl, place-from_new m v key name fresh node same other e),
              )
        | inl e ↦ elim (Option-cases (scan key (entries m.cur))) [
          | inr ((name, node), c) ↦
              rw (set_flags, e, c, into_cur-some m.cur d m (from_cur m v key name fresh node) there)
                (
                  IsMaildir-from_cur m v key name fresh node same e c,
                  inl (d, there, refl, place-from_cur m v key name fresh node same other e c),
                )
          | inl c ↦
              rw (set_flags, e, c)
                (v, inl (d, there, refl, ground (arith, e, c, text_beq_iff key other)))
        ]
      ]
    ]
