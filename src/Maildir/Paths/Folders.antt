-- ===== src/Maildir/Paths/Folders.antt =====
-- internal/maildir/paths.go: where folders lie.
use mathlib.Core.List.{reverse-reverse, reverse-cons, reverse-append}
use mailroom.Prelude.{
  Bool, Lacks, List, Text, [], ap, arith, codes, equal_fold, false, nat_eq, refl, reverse,
  split_at_byte, sym, text_beq_iff, text_eq, true, ℕ, ◌++◌, ◌∙◌, ◌∷◌, ◌≡◌, ◌≢◌,
}
use mailroom.Maildir.Paths.{FilePath, clean, folder_path, join_path, user_root}

-- A name that is one segment of a path.
abbrev pub IsSegment : Text → Type 0
IsSegment s = (s ≢ []) × (s ≢ codes ".") × (s ≢ codes "..") × Lacks b'/' s

split_at_byte-Lacks : (b : ℕ) (s : Text) → Lacks b s → split_at_byte b s ≡ s ∷ []
unfolding split_at_byte
split_at_byte-Lacks b [] h = refl
split_at_byte-Lacks b (c ∷ s) h = ground (arith, split_at_byte-Lacks b s h.1)

clean-segment :
    (rooted : Bool) (up : List Text) (s : Text)
    → IsSegment s
    → clean rooted up (s ∷ []) ≡ reverse (s ∷ up)
unfolding clean
clean-segment rooted up s h =
    ground (arith, h, text_beq_iff s [], text_beq_iff s (codes "."), text_beq_iff s (codes ".."))

join_path-segment :
    (p : FilePath) (s : Text)
    → IsSegment s
    → join_path p s ≡ record p { segments = p.segments ++ s ∷ [] }
unfolding join_path
join_path-segment p s h = rw (
  split_at_byte-Lacks b'/' s h.3,
  clean-segment p.rooted (reverse p.segments) s h,
  reverse-cons s (reverse p.segments),
  reverse-reverse p.segments,
)

-- A folder's directory lies directly in its user's directory, under the folder's name behind a dot:
-- so it is for every name that has no slash, is not empty, and is neither INBOX in any case nor ".".
pub folder_path_inside :
    (root : FilePath) (folder : Text)
    → folder ≢ []
    → folder ≢ codes "."
    → equal_fold folder (codes "INBOX") ≡ false
    → Lacks b'/' folder
    → folder_path root folder ≡ record root { segments = root.segments ++ (b'.' ∷ folder) ∷ [] }
unfolding folder_path
folder_path_inside root folder filled dot inbox slash =
    let segment : IsSegment (b'.' ∷ folder) = (
      (λ e. cc),
      (λ e. filled (ground (arith, e))),
      (λ e. dot (ground (arith, e))),
      ((λ e. absurd (omega (arith, e))), slash),
    ) in
    ground (arith, join_path-segment root (b'.' ∷ folder) segment, text_beq_iff folder [])

-- One segment down and two up leave the parent.
clean-up :
    (rooted : Bool) (up : List Text) (owner v : Text)
    → IsSegment owner
    → IsSegment v
    → clean rooted (owner ∷ up) (codes ".x" ∷ codes ".." ∷ codes ".." ∷ v ∷ []) ≡ reverse (v ∷ up)
unfolding clean
clean-up true up owner v ho hv =
    ground (arith, ho, text_beq_iff owner (codes ".."), clean-segment true up v hv)
clean-up false up owner v ho hv =
    ground (arith, ho, text_beq_iff owner (codes ".."), clean-segment false up v hv)

split-escape :
    (v : Text)
    → Lacks b'/' v
    → split_at_byte b'/' (codes ".x/../../" ++ v) ≡ codes ".x" ∷ codes ".." ∷ codes ".." ∷ v ∷ []
unfolding split_at_byte
split-escape v h = rw (split_at_byte-Lacks b'/' v h, split_at_byte)

escape_from :
    (p : FilePath) (owner v : Text)
    → IsSegment owner
    → IsSegment v
    → join_path (record p { segments = p.segments ++ owner ∷ [] }) (codes ".x/../../" ++ v)
      ≡ record p { segments = p.segments ++ v ∷ [] }
unfolding join_path
escape_from p owner v ho hv = rw (
  split-escape v hv.3,
  reverse-append p.segments (owner ∷ []),
  clean-up p.rooted (reverse p.segments) owner v ho hv,
  reverse-cons v (reverse p.segments),
  reverse-reverse p.segments,
)

escape :
    (p : FilePath) (owner v : Text)
    → IsSegment owner
    → IsSegment v
    → join_path (join_path p owner) (codes ".x/../../" ++ v) ≡ join_path p v
escape p owner v ho hv =
    ap (λ q. join_path q (codes ".x/../../" ++ v)) (join_path-segment p owner ho)
    ∙ escape_from p owner v ho hv
    ∙ sym (join_path-segment p v hv)

-- A name with slashes is not confined to its user's directory: whatever the user, the folder
-- "x/../../v" of a user has the root directory of the user v of the same domain, which is the INBOX
-- of v.
pub folder_path_escapes :
    (base : FilePath) (domain owner v : Text)
    → IsSegment owner
    → IsSegment v
    → folder_path (user_root base domain owner) (codes "x/../../" ++ v) ≡ user_root base domain v
unfolding folder_path user_root
folder_path_escapes base domain owner v ho hv = escape (join_path base domain) owner v ho hv
