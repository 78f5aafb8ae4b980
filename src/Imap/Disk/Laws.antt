-- ===== src/Imap/Disk/Laws.antt =====
-- internal/imapbackend/user.go: what is left on the disk after a removal and after a renaming.
use mailroom.Prelude.{
  Bool, Bool-cases, List, Option, Text, [], any, ap, arith, false, if◌then◌else◌, inl, inr, lookup,
  nat_eq, none, refl, same_refl, some, text_beq_iff, text_eq, true, ◌++◌, ◌==◌, ◌∙◌, ◌∷◌, ◌≡◌, ◌≢◌,
  ◌⊎◌,
}
use mailroom.Maildir.Paths.{FilePath}
use mailroom.Imap.Disk.Paths.{below, bool_beq, bool_beq_self, path_eq, reroot, under}
use mailroom.Imap.Disk.{Disk, move_all, remove_all}

-- A removal takes the paths at or below its own, and no others.
pub lookup-remove_all :
    (p q : FilePath) (disk : Disk)
    → lookup q (remove_all p disk) ≡ (if under p q then none else lookup q disk)
unfolding lookup remove_all
lookup-remove_all p q [] = ground arith
lookup-remove_all p q ((r, md) ∷ disk) =
    ground (arith, lookup-remove_all p q disk, path_eq.same_iff r q)

below-append : (fs rest : List Text) → below fs (fs ++ rest) ≡ some rest
unfolding below
below-append [] rest = refl
below-append (f ∷ fs) rest = ground (arith, below-append fs rest, same_refl f)

below_sound : (fs ss rest : List Text) → below fs ss ≡ some rest → ss ≡ fs ++ rest
unfolding below
below_sound [] ss rest e = cc
below_sound (f ∷ fs) [] rest e = cc
below_sound (f ∷ fs) (s ∷ ss) rest e = elim (Bool-cases (f == s)) [
  | inl same ↦
      let tail = below_sound fs ss rest (rw (same) at e) in
      let head : f ≡ s = (text_beq_iff f s).0 same in cc (tail, head)
  | inr other ↦ absurd (cc (rw (other) at e))
]

-- A folder lies in its user's directory.
pub under-below :
    (p : FilePath) (rest : List Text) → under p (record p { segments = p.segments ++ rest }) ≡ true
unfolding under
under-below p rest = rw (below-append p.segments rest, bool_beq_self p.rooted) refl

below_self : (fs : List Text) → below fs fs ≡ some []
unfolding below
below_self [] = refl
below_self (f ∷ fs) = ground (arith, below_self fs, same_refl f)

pub under_self : (p : FilePath) → under p p ≡ true
unfolding under
under_self p = rw (below_self p.segments, bool_beq_self p.rooted) refl

below-sibling : (fs : List Text) (a b : Text) → a ≢ b → below (fs ++ a ∷ []) (fs ++ b ∷ []) ≡ none
unfolding below
below-sibling [] a b h = ground (arith, text_beq_iff a b)
below-sibling (f ∷ fs) a b h = ground (arith, below-sibling fs a b h)

-- Of two directories side by side neither lies in the other.
pub under-sibling :
    (p : FilePath) (a b : Text)
    → a ≢ b
    → under
        (record p { segments = p.segments ++ a ∷ [] })
        (record p { segments = p.segments ++ b ∷ [] })
      ≡ false
unfolding under
under-sibling p a b h = rw (below-sibling p.segments a b h) (ground arith)

reroot-below :
    (old new : FilePath) (rest : List Text)
    → reroot old new (record old { segments = old.segments ++ rest })
      ≡ record new { segments = new.segments ++ rest }
unfolding reroot
reroot-below old new rest =
    rw (reroot, below-append old.segments rest, bool_beq_self old.rooted) refl

append_left : (fs a b : List Text) → fs ++ a ≡ fs ++ b → a ≡ b
append_left [] a b e = e
append_left (f ∷ fs) a b e = append_left fs a b cc

abbrev pub at : FilePath → List Text → FilePath
at p rest = record p { segments = p.segments ++ rest }

same_rooted : (a b : Bool) → bool_beq a b ≡ true → b ≡ a
unfolding bool_beq
same_rooted true b h = h
same_rooted false true h = cc
same_rooted false false h = refl

reroot-back :
    (old new q : FilePath) (rest : List Text)
    → under new q ≡ false
    → reroot old new q ≡ at new rest
    → q ≡ at old rest
unfolding reroot
reroot-back old new q rest h e =
    go (below old.segments q.segments) refl (Bool-cases (bool_beq old.rooted q.rooted))
  where
    inside : q ≡ at new rest → q ≡ at old rest
    inside s = absurd (cc (h, s, under-below new rest))

    go :
        (r : Option (List Text))
        → below old.segments q.segments ≡ r
        → (bool_beq old.rooted q.rooted ≡ true) ⊎ (bool_beq old.rooted q.rooted ≡ false)
        → q ≡ at old rest
    go none b c = inside (rw (reroot, b) at e)
    go (some r) b (inr other) = inside (rw (reroot, b, other) at e)
    go (some r) b (inl same) =
        let moved : ◌≡◌ {A = FilePath} (record new { segments = new.segments ++ r }) (at new rest) =
          rw (reroot, b, same) at e in
        let tail : r ≡ rest =
          append_left new.segments r rest (ap (λ (p : FilePath). p.segments) moved) in
        let segs : q.segments ≡ old.segments ++ rest =
          below_sound old.segments q.segments r b ∙ ap (λ l. old.segments ++ l) tail in
        let root : q.rooted ≡ old.rooted = same_rooted old.rooted q.rooted same in cc (segs, root)

reroot-same :
    (old new q : FilePath) (rest : List Text)
    → under new q ≡ false
    → (reroot old new q == at new rest) ≡ (q == at old rest)
reroot-same old new q rest h = elim (Bool-cases (q == at old rest)) [
  | inl same ↦
      let e : q ≡ at old rest = (path_eq.same_iff q (at old rest)).0 same in
      same_bools (reroot old new q == at new rest) _ (same)
        (rw (e, reroot-below old new rest) (same_refl (at new rest)))
  | inr other ↦ elim (Bool-cases (reroot old new q == at new rest)) [
    | inl hit ↦
        let e = reroot-back old new q rest h ((path_eq.same_iff _ _).0 hit) in
        absurd (cc (other, ap (λ r. r == at old rest) e, same_refl (at old rest)))
    | inr miss ↦ cc (other, miss)
  ]
]
  where
    same_bools : (a b : Bool) → b ≡ true → a ≡ true → a ≡ b
    same_bools a b h k = cc

-- Where nothing was at the new path, what was in the old directory is found in the new one.
pub lookup-move_all :
    (old new : FilePath) (rest : List Text) (disk : Disk)
    → any (λ e. under new e.0) disk ≡ false
    → lookup (at new rest) (move_all old new disk) ≡ lookup (at old rest) disk
unfolding lookup move_all any
lookup-move_all old new rest [] h = refl
lookup-move_all old new rest ((q, md) ∷ disk) h =
    let free : under new q ≡ false = ground (arith, h) in
    rw (reroot-same old new q rest free) (
      ap (λ l. if q == at old rest then some md else l)
        (lookup-move_all old new rest disk (ground (arith, h))))
