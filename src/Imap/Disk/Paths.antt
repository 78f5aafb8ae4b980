-- ===== src/Imap/Disk/Paths.antt =====
-- internal/imapbackend/user.go: paths below other paths.
use mailroom.Prelude.{
  Bool, Comparable, List, Option, Text, [], ap, arith, false, if◌then◌else◌, nat_eq, none, not,
  refl, reverse, same_refl, some, text_beq_iff, text_eq, true, ◌&&◌, ◌++◌, ◌==◌, ◌↔◌, ◌∷◌, ◌≡◌,
}
use mailroom.Maildir.Paths.{FilePath}

segments_beq : List Text → List Text → Bool
segments_beq [] [] = true
segments_beq [] (t ∷ ts) = false
segments_beq (s ∷ ss) [] = false
segments_beq (s ∷ ss) (t ∷ ts) = s == t && segments_beq ss ts

segments_sound : (ss ts : List Text) → segments_beq ss ts ≡ true → ss ≡ ts
unfolding segments_beq
segments_sound [] [] h = refl
segments_sound [] (t ∷ ts) h = cc
segments_sound (s ∷ ss) [] h = cc
segments_sound (s ∷ ss) (t ∷ ts) h = ground (arith, segments_sound ss ts, text_beq_iff s t)

segments_self : (ss : List Text) → segments_beq ss ss ≡ true
unfolding segments_beq
segments_self [] = refl
segments_self (s ∷ ss) = ground (arith, segments_self ss, same_refl s)

unfoldable pub bool_beq : Bool → Bool → Bool
bool_beq true b = b
bool_beq false b = not b

pub path_beq : FilePath → FilePath → Bool
unfolding segments_beq bool_beq
path_beq p q = bool_beq p.rooted q.rooted && segments_beq p.segments q.segments

same_path :
    (a b : Bool) (ss ts : List Text)
    → bool_beq a b ≡ true
    → ss ≡ ts
    → ◌≡◌ {A = FilePath}
        (record { rooted = a; segments = ss })
        (record { rooted = b; segments = ts })
unfolding bool_beq
same_path true true ss ts h e = ap (λ l. record { rooted = true; segments = l }) e
same_path false false ss ts h e = ap (λ l. record { rooted = false; segments = l }) e
same_path true false ss ts h e = cc
same_path false true ss ts h e = cc

pub bool_beq_self : (b : Bool) → bool_beq b b ≡ true
unfolding bool_beq
bool_beq_self true = refl
bool_beq_self false = refl

path_beq_sound : (p q : FilePath) → path_beq p q ≡ true → p ≡ q
unfolding path_beq
path_beq_sound p q h =
    same_path p.rooted q.rooted p.segments q.segments (ground arith)
      (segments_sound p.segments q.segments (ground arith))

path_beq_self : (p : FilePath) → path_beq p p ≡ true
unfolding path_beq
path_beq_self p = rw (bool_beq_self p.rooted, segments_self p.segments) refl

pub path_beq_iff : (p q : FilePath) → (path_beq p q ≡ true) ↔ (p ≡ q)
path_beq_iff p q = (path_beq_sound p q, λ e. rw (← e) (path_beq_self p))

instance abbrev pub path_eq : Comparable FilePath
path_eq = record { same = path_beq; same_iff = path_beq_iff }

-- What follows a front part, if the list has it.
unfoldable pub below : List Text → List Text → Option (List Text)
below [] ss = some ss
below (f ∷ fs) [] = none
below (f ∷ fs) (s ∷ ss) = let rest = below fs ss in if f == s then rest else none

-- The path `q` is `p` or lies in it.
unfoldable pub under : FilePath → FilePath → Bool
unfolding below bool_beq
under p q =
    bool_beq p.rooted q.rooted
    && elim (below p.segments q.segments) [ none ↦ false | some _ ↦ true ]

-- Where a path is when the directory `old` has become `new`.
unfoldable pub reroot : FilePath → FilePath → FilePath → FilePath
unfolding below bool_beq
reroot old new q = elim (below old.segments q.segments) [
  | none ↦ q
  | some rest ↦
      if bool_beq old.rooted q.rooted then record new { segments = new.segments ++ rest } else q
]

-- filepath.Dir of a path that is cleaned.
unfoldable pub parent_of : FilePath → FilePath
parent_of p = elim (reverse p.segments) [ [] ↦ p | s ∷ up ↦ record p { segments = reverse up } ]
