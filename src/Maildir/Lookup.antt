-- ===== src/Maildir/Lookup.antt =====
-- internal/maildir/maildir.go: where `find` looks, and what renaming and removing do to it.
use mailroom.Prelude.{
  Option, Text, [], arith, false, if◌then◌else◌, insert, lookup, nat_eq, none, refl, remove, some,
  text_beq_iff, text_eq, ◌++◌, ◌==◌, ◌∷◌, ◌≡◌,
}
use mailroom.Maildir.{
  Entries, Faults, Maildir, Node, Place, Result, entries, err, find, in_cur, in_new, not_exist, ok,
  scan,
}
use mailroom.Maildir.Names.{split_flags}

abbrev pub key_of : Text → Text
key_of name = (split_flags name).0

-- Each key has one entry at most.
abbrev pub Once : Entries → Type 0
Once [] = Unit
Once ((name, node) ∷ d) = (scan (key_of name) d ≡ none) × Once d

pub scan-key :
    (k : Text) (d : Entries) (name : Text) (node : Node)
    → scan k d ≡ some (name, node)
    → key_of name ≡ k
unfolding scan
scan-key k [] name node h = cc
scan-key k ((n, x) ∷ d) name node h =
    ground (arith, scan-key k d name node, text_beq_iff (key_of n) k)

scan-lookup :
    (k : Text) (d : Entries) (name : Text) (node : Node)
    → Once d
    → scan k d ≡ some (name, node)
    → lookup name d ≡ some node
unfolding scan lookup
scan-lookup k [] name node o h = cc
scan-lookup k ((n, x) ∷ d) name node o h = ground (
  arith,
  scan-lookup k d name node o.1,
  scan-key k d name node,
  text_beq_iff (key_of n) k,
  text_beq_iff n name,
)

remove_absent : (name : Text) (d : Entries) → scan (key_of name) d ≡ none → remove name d ≡ d
unfolding scan remove
remove_absent name [] h = refl
remove_absent name ((n, x) ∷ d) h =
    ground (arith, remove_absent name d, text_beq_iff n name, text_beq_iff (key_of n) (key_of name))

pub scan-remove :
    (k j : Text) (d : Entries) (name : Text) (node : Node)
    → Once d
    → scan k d ≡ some (name, node)
    → scan j (remove name d) ≡ (if k == j then none else scan j d)
unfolding scan remove
scan-remove k j [] name node o h = cc
scan-remove k j ((n, x) ∷ d) name node o h = ground (
  arith,
  scan-remove k j d name node o.1,
  scan-key k d name node,
  remove_absent name d,
  text_beq_iff (key_of n) k,
  text_beq_iff (key_of n) j,
  text_beq_iff k j,
  text_beq_iff n name,
)

insert_absent :
    (name : Text) (node : Node) (d : Entries)
    → scan (key_of name) d ≡ none
    → insert name node d ≡ d ++ (name, node) ∷ []
unfolding scan insert
insert_absent name node [] h = refl
insert_absent name node ((n, x) ∷ d) h =
    ground
      (arith, insert_absent name node d, text_beq_iff n name, text_beq_iff (key_of n) (key_of name))

scan-append :
    (j name : Text) (node : Node) (d : Entries)
    → scan (key_of name) d ≡ none
    → scan j (d ++ (name, node) ∷ []) ≡ (if key_of name == j then some (name, node) else scan j d)
unfolding scan
scan-append j name node [] h = refl
scan-append j name node ((n, x) ∷ d) h = ground (
  arith,
  scan-append j name node d,
  text_beq_iff (key_of n) j,
  text_beq_iff (key_of name) j,
  text_beq_iff (key_of n) (key_of name),
)

pub scan-insert :
    (j name : Text) (node : Node) (d : Entries)
    → scan (key_of name) d ≡ none
    → scan j (insert name node d) ≡ (if key_of name == j then some (name, node) else scan j d)
scan-insert j name node d h = rw (insert_absent name node d h) (scan-append j name node d h)

pub scan-remove-none :
    (k name : Text) (d : Entries) → scan k d ≡ none → scan k (remove name d) ≡ none
unfolding scan remove
scan-remove-none k name [] h = refl
scan-remove-none k name ((n, x) ∷ d) h = ground (arith, scan-remove-none k name d)

pub remove-Once : (name : Text) (d : Entries) → Once d → Once (remove name d)
unfolding remove
remove-Once name [] o = tt
remove-Once name ((n, x) ∷ d) o =
    ground (arith, remove-Once name d o.1, scan-remove-none (key_of n) name d o.0)

append-Once :
    (name : Text) (node : Node) (d : Entries)
    → Once d
    → scan (key_of name) d ≡ none
    → Once (d ++ (name, node) ∷ [])
unfolding scan
append-Once name node [] o h = (refl, tt)
append-Once name node ((n, x) ∷ d) o h = ground (
  arith,
  append-Once name node d o.1,
  scan-append (key_of n) name node d,
  text_beq_iff (key_of n) (key_of name),
  text_beq_iff (key_of name) (key_of n),
)

pub insert-Once :
    (name : Text) (node : Node) (d : Entries)
    → Once d
    → scan (key_of name) d ≡ none
    → Once (insert name node d)
insert-Once name node d o h = rw (insert_absent name node d h) (append-Once name node d o h)

-- A key names one message: it is not twice in a directory, nor in both.
pub record IsMaildir (m : Maildir) : Type 0 where
  pub once_new : Once (entries m.new)
  pub once_cur : Once (entries m.cur)
  pub apart :
      (k : Text) (p : Text × Node) → scan k (entries m.new) ≡ some p → scan k (entries m.cur) ≡ none

-- Where a key's message lies, with its name and file.
abbrev pub first_place : Option (Text × Node) → Option (Text × Node) → Option (Place × Text × Node)
first_place (some p) q = some (in_new, p.0, p.1)
first_place none (some q) = some (in_cur, q.0, q.1)
first_place none none = none

unfoldable pub place_of : Text → Maildir → Option (Place × Text × Node)
place_of k m = first_place (scan k (entries m.new)) (scan k (entries m.cur))

abbrev pub found : Option (Place × Text × Node) → Result (Place × Text × Node)
found none = err not_exist
found (some p) = ok p

pub find-place_of :
    (f : Faults) (k : Text) (m : Maildir) → f.read_dir ≡ false → find f k m ≡ found (place_of k m)
unfolding find place_of
find-place_of f k m h = ground arith

-- The file behind a key, wherever it lies.
abbrev pub node_in : Option (Place × Text × Node) → Option Node
node_in none = none
node_in (some p) = some p.2
