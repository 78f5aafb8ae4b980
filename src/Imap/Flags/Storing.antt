-- ===== src/Imap/Flags/Storing.antt =====
-- internal/imapbackend/message.go: what STORE makes of a message's flags.
use mailroom.Prelude.{
  Bool-cases, List, Text, [], any, arith, equal_fold, inl, inr, keep, map, nat_eq, not, refl, subst,
  text_beq_iff, text_eq, true, ◌&&◌, ◌++◌, ◌==◌, ◌||◌, ◌∷◌, ◌≡◌,
}
use mailroom.Imap.Flags.{
  FlagSet, StoreOp, add_flag, add_flags, add_flags_op, canonical_flag, del_all, del_flags, has_flag,
  set_flags, store,
}

any-snoc :
    (k f : Text) (set : FlagSet)
    → any (λ g. g == k) (set ++ f ∷ []) ≡ (f == k || any (λ g. g == k) set)
unfolding any
any-snoc k f [] = refl
any-snoc k f (g ∷ set) = rw (any-snoc k f set) (ground arith)

pub any-add_flag :
    (k f : Text) (set : FlagSet)
    → any (λ g. g == k) (add_flag f set) ≡ (f == k || any (λ g. g == k) set)
unfolding add_flag
any-add_flag k f set = elim (Bool-cases (any (λ g. g == f) set)) [
  | inl there ↦ elim (Bool-cases (f == k)) [
    | inl same ↦
        let e : f ≡ k = (text_beq_iff f k).0 same in
        rw (there, same) (subst (λ x. any (λ g. g == x) set ≡ true) e there)
    | inr other ↦ rw (there, other) refl
  ]
  | inr absent ↦ rw (absent) (any-snoc k f set)
]

pub any-add_flags :
    (k : Text) (fs : List Text) (set : FlagSet)
    → any (λ g. g == k) (add_flags fs set) ≡ (any (λ g. g == k) fs || any (λ g. g == k) set)
unfolding add_flags any
any-add_flags k [] set = refl
any-add_flags k (f ∷ fs) set =
    rw (any-add_flags k fs (add_flag f set), any-add_flag k f set) (ground arith)

pub any-canonical :
    (k : Text) (fs : List Text)
    → any (λ g. g == canonical_flag k) (map canonical_flag fs) ≡ any (λ g. equal_fold g k) fs
unfolding any canonical_flag equal_fold
any-canonical k [] = refl
any-canonical k (f ∷ fs) = rw (any-canonical k fs) refl

any-keep_others :
    (k f : Text) (set : FlagSet)
    → any (λ g. g == k) (keep (λ g. not (g == f)) set) ≡ (any (λ g. g == k) set && not (f == k))
unfolding any keep
any-keep_others k f [] = refl
any-keep_others k f (g ∷ set) =
    ground (arith, any-keep_others k f set, text_beq_iff g f, text_beq_iff g k, text_beq_iff f k)

has_flag-del_all :
    (k : Text) (fs : List Text) (set : FlagSet)
    → has_flag k (del_all fs set) ≡ (has_flag k set && not (any (λ g. equal_fold g k) fs))
unfolding has_flag del_all any canonical_flag equal_fold keep
has_flag-del_all k [] set = ground arith
has_flag-del_all k (f ∷ fs) set =
    rw (has_flag-del_all k fs (keep (λ g. not (g == canonical_flag f)) set))
      (rw (any-keep_others (canonical_flag k) (canonical_flag f) set) (ground arith))

-- The flags after STORE, in any case: FLAGS leaves those given, +FLAGS adds them to those before, and
-- -FLAGS takes them away.
pub has_flag-store :
    (k : Text) (op : StoreOp) (set : FlagSet)
    → has_flag k (store op set) ≡ elim op [
      | set_flags fs ↦ any (λ g. equal_fold g k) fs
      | add_flags_op fs ↦ any (λ g. equal_fold g k) fs || has_flag k set
      | del_flags fs ↦ has_flag k set && not (any (λ g. equal_fold g k) fs)
    ]
unfolding store has_flag
has_flag-store k (set_flags fs) set =
    rw (any-add_flags (canonical_flag k) (map canonical_flag fs) [], any-canonical k fs)
      (ground arith)
has_flag-store k (add_flags_op fs) set =
    rw (any-add_flags (canonical_flag k) (map canonical_flag fs) set, any-canonical k fs) refl
has_flag-store k (del_flags fs) set = has_flag-del_all k fs set
