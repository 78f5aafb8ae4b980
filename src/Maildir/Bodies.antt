-- ===== src/Maildir/Bodies.antt =====
-- internal/maildir/maildir.go: what every key's file is after `Deliver` and `SetFlags`, whatever fails.
use mailroom.Prelude.{
  Bool-cases, Lacks, Option, Text, ap, arith, false, if◌then◌else◌, inl, inr, insert, nat_eq, none,
  refl, same_refl, some, text_beq_iff, text_eq, true, ℕ, ◌==◌, ◌∙◌, ◌≡◌, ◌⊎◌,
}
use mailroom.Maildir.{
  Error, Faults, Maildir, Node, Place, Result, deliver, entries, err, file, find, init, no_faults,
  ok, scan, set_flags,
}
use mailroom.Maildir.Flags.{FlagsSet, flagged, set_flags_lem}
use mailroom.Maildir.Names.{flagged_name}
use mailroom.Maildir.Lookup.{IsMaildir, insert-Once, key_of, node_in, place_of, scan-insert}

-- The file that a key names, wherever it lies.
abbrev pub body_of : Text → Maildir → Option Node
body_of k m = node_in (place_of k m)

-- How a call that writes one key's file leaves the Maildir.
pub record Keeps (m m1 : Maildir) (name : Text) : Type 0 where
  pub valid : IsMaildir m1
  pub others : (k : Text) → (name == k) ≡ false → body_of k m1 ≡ body_of k m

same_entries :
    (m m1 : Maildir)
    → entries m1.new ≡ entries m.new
    → entries m1.cur ≡ entries m.cur
    → IsMaildir m
    → IsMaildir m1
same_entries m m1 n c v = record {
  once_new = rw (n) v.once_new;
  once_cur = rw (c) v.once_cur;
  apart = λ k p h. rw (c) (v.apart k p (rw (n) at h));
}

-- What a delivery does to the two directories that are read.
deliver-entries :
    (f : Faults) (name content : Text) (now : ℕ) (m : Maildir)
    → let (m1, answer) = deliver f name now content m in
      (entries m1.cur ≡ entries m.cur)
      × (((e : Error) × (answer ≡ err e) × (entries m1.new ≡ entries m.new))
          ⊎ (answer ≡ ok name) × (entries m1.new ≡ insert name (file content now) (entries m.new)))
unfolding deliver init
deliver-entries f name content now m = ground arith

set_flags-stuck :
    (f : Faults) (key flags : Text) (m : Maildir)
    → f.rename ≡ true
    → (set_flags f key flags m).0 ≡ m
unfolding set_flags find
set_flags-stuck f key flags m h = ground (arith, h)

set_flags-working :
    (f : Faults) (key flags : Text) (m : Maildir)
    → f.read_dir ≡ false
    → f.rename ≡ false
    → set_flags f key flags m ≡ set_flags no_faults key flags m
unfolding set_flags find
set_flags-working f key flags m reads moves = ground (arith, reads, moves)

node-flagged :
    (name key other : Text) (m : Maildir)
    → node_in (if key == other then flagged name (place_of key m) else place_of other m)
      ≡ body_of other m
node-flagged name key other m = elim (Bool-cases (key == other)) [
  | inl same ↦
      let e : key ≡ other = (text_beq_iff key other).0 same in
      rw (same, e) (node_in-flagged name (place_of other m))
  | inr apart ↦ rw (apart) refl
]
  where
    node_in-flagged :
        (name : Text) (p : Option (Place × Text × Node)) → node_in (flagged name p) ≡ node_in p
    node_in-flagged name none = refl
    node_in-flagged name (some p) = refl

FlagsSet-body :
    (key flags other : Text) (m : Maildir) (r : Maildir × Result (Unit {0}))
    → FlagsSet key flags other m r
    → body_of other r.0 ≡ body_of other m
FlagsSet-body key flags other m r (inl (d, there, reply, moved)) =
    ap node_in moved ∙ node-flagged (flagged_name key flags) key other m
FlagsSet-body key flags other m r (inr (missing, same, e)) = ap (body_of other) same

-- Setting flags changes no key's file, whatever fails.
pub set_flags-Keeps :
    (f : Faults) (key flags : Text) (m : Maildir)
    → Lacks b':' key
    → IsMaildir m
    → IsMaildir (set_flags f key flags m).0
      × ((other : Text) → body_of other (set_flags f key flags m).0 ≡ body_of other m)
unfolding set_flags find
set_flags-Keeps f key flags m h v = elim (Bool-cases f.read_dir) [
  | inl blind ↦ rw (set_flags, blind) (v, λ other. refl)
  | inr reads ↦ elim (Bool-cases f.rename) [
    | inl stuck ↦ rw (set_flags-stuck f key flags m stuck) (v, λ other. refl)
    | inr moves ↦ rw (set_flags-working f key flags m reads moves) (
      (set_flags_lem key flags key m h v).0,
      λ other.
          FlagsSet-body key flags other m (set_flags no_faults key flags m)
            (set_flags_lem key flags other m h v).1,
    )
  ]
]

-- A name without a colon, which is its own key and no message's key yet.
pub record IsFresh (name : Text) (m : Maildir) : Type 0 where
  pub plain : Lacks b':' name
  pub own : key_of name ≡ name
  pub unused : place_of name m ≡ none

place-unused :
    (k : Text) (m : Maildir)
    → place_of k m ≡ none
    → (scan k (entries m.new) ≡ none) × (scan k (entries m.cur) ≡ none)
unfolding place_of
place-unused k m h = ground (arith, h)

inserted-IsMaildir :
    (m m1 : Maildir) (name : Text) (node : Node)
    → entries m1.new ≡ insert name node (entries m.new)
    → entries m1.cur ≡ entries m.cur
    → IsFresh name m
    → IsMaildir m
    → IsMaildir m1
inserted-IsMaildir m m1 name node n c u v =
    let (gone, elsewhere) = place-unused name m u.unused in
    let free : scan (key_of name) (entries m.new) ≡ none = rw (u.own) gone in
    record {
      once_new = rw (n) (insert-Once name node (entries m.new) v.once_new free);
      once_cur = rw (c) v.once_cur;
      apart = λ k p h. rw (c) (
          ground (
            arith,
            rw (n) at h,
            elsewhere,
            u.own,
            v.apart k p,
            text_beq_iff name k,
            scan-insert k name node (entries m.new) free,
          ));
    }

inserted-body :
    (m m1 : Maildir) (name k : Text) (node : Node)
    → entries m1.new ≡ insert name node (entries m.new)
    → entries m1.cur ≡ entries m.cur
    → IsFresh name m
    → body_of k m1 ≡ (if name == k then some node else body_of k m)
unfolding place_of
inserted-body m m1 name k node n c u =
    let (gone, elsewhere) = place-unused name m u.unused in
    let free : scan (key_of name) (entries m.new) ≡ none = rw (u.own) gone in
    rw (n, c, scan-insert k name node (entries m.new) free, u.own)
      (elim (Bool-cases (name == k)) [ inl same ↦ rw (same) refl | inr apart ↦ rw (apart) refl ])

unchanged :
    (m m1 : Maildir)
    → entries m1.new ≡ entries m.new
    → entries m1.cur ≡ entries m.cur
    → (k : Text) → body_of k m1 ≡ body_of k m
unfolding place_of
unchanged m m1 n c k = rw (n, c) refl

-- Whatever fails, a delivery under a fresh name keeps the Maildir valid and the other keys' files; and
-- where it answers the name, that is the key of the whole file.
pub deliver-Keeps :
    (f : Faults) (name content : Text) (now : ℕ) (m : Maildir)
    → IsFresh name m
    → IsMaildir m
    → let (m1, answer) = deliver f name now content m in
      Keeps m m1 name
      × (((e : Error) × (answer ≡ err e))
          ⊎ (answer ≡ ok name) × (body_of name m1 ≡ some (file content now)))
deliver-Keeps f name content now m u v =
    let m1 = (deliver f name now content m).0 in
    let (c, outcome) = deliver-entries f name content now m in
    elim outcome [
      | inl (e, failed, n) ↦ (
        record { valid = same_entries m m1 n c v; others = λ k apart. unchanged m m1 n c k },
        inl (e, failed),
      )
      | inr (worked, n) ↦ (
        record {
          valid = inserted-IsMaildir m m1 name (file content now) n c u v;
          others = λ k apart. inserted-body m m1 name k (file content now) n c u ∙ rw (apart) refl;
        },
        inr (
          worked,
          inserted-body m m1 name name (file content now) n c u ∙ rw (same_refl name) refl,
        ),
      )
    ]
