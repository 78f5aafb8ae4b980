-- ===== src/Imap/Flags.antt =====
-- internal/imapbackend/flags.go, and the flags of a message in message.go. A set of flags is a list;
-- Go keeps it as a map, whose order is open. The names of the standard flags are constants of the
-- IMAP library, so they are a parameter.
pub mod Columns
pub mod Letters
pub mod Storing
use mailroom.Prelude.{
  Bool, List, Option, Text, [], any, codes, if◌then◌else◌, is_nil, is_space, join, keep, lookup,
  map, nat_eq, none, not, some, text_eq, to_lower, ℕ, ◌++◌, ◌==◌, ◌∷◌,
}

pub record FlagNames : Type 0 where
  pub seen : Text
  pub answered : Text
  pub flagged : Text
  pub deleted : Text
  pub draft : Text

-- canonicalFlag
unfoldable pub canonical_flag : Text → Text
unfolding to_lower
canonical_flag flag = to_lower flag

abbrev pub FlagSet : Type 0
FlagSet = List Text

-- set[flag] = struct{}{}
unfoldable pub add_flag : Text → FlagSet → FlagSet
unfolding any
add_flag flag set = if any (λ g. g == flag) set then set else set ++ flag ∷ []

unfoldable pub add_flags : List Text → FlagSet → FlagSet
unfolding add_flag
add_flags [] set = set
add_flags (f ∷ fs) set = add_flags fs (add_flag f set)

-- maildirLetterToFlag and flagToMaildirLetter
letter_table : FlagNames → List (ℕ × Text)
letter_table n =
    (b'S', n.seen)
    ∷ (b'R', n.answered)
    ∷ (b'F', n.flagged)
    ∷ (b'T', n.deleted)
    ∷ (b'D', n.draft)
    ∷ []

abbrev flipped : ℕ × Text → Text × ℕ
flipped p = (p.1, p.0)

unfoldable pub flag_of_letter : FlagNames → ℕ → Option Text
unfolding lookup letter_table
flag_of_letter n letter = lookup letter (letter_table n)

unfoldable pub letter_of_flag : FlagNames → Text → Option ℕ
unfolding lookup letter_table
letter_of_flag n flag = lookup flag (map flipped (letter_table n))

-- flagSetFromMaildirLetters
unfoldable pub flags_of_letters : FlagNames → Text → FlagSet → FlagSet
unfolding flag_of_letter add_flag
flags_of_letters n [] set = set
flags_of_letters n (c ∷ letters) set =
    let rest = flags_of_letters n letters in
    elim (flag_of_letter n c) [ none ↦ rest set | some flag ↦ rest (add_flag flag set) ]

unfoldable pub flag_set_from_maildir_letters : FlagNames → Text → FlagSet
unfolding flags_of_letters
flag_set_from_maildir_letters n letters = flags_of_letters n letters []

unfoldable pub maildir_letters_from_flag_list : FlagNames → List Text → Text
unfolding letter_of_flag canonical_flag
maildir_letters_from_flag_list n [] = []
maildir_letters_from_flag_list n (f ∷ flags) =
    let rest = maildir_letters_from_flag_list n flags in
    elim (letter_of_flag n (canonical_flag f)) [ none ↦ rest | some c ↦ c ∷ rest ]

unfoldable pub encode_flags : List Text → Text
unfolding join
encode_flags flags = join flags (codes " ")

-- strings.Fields: the parts between white space, the empty ones left out.
unfoldable pub split_space : Text → List Text
unfolding is_space
split_space [] = [] ∷ []
split_space (c ∷ s) = elim (split_space s) [
  | [] ↦ [] ∷ []
  | part ∷ parts ↦ if is_space c then [] ∷ part ∷ parts else (c ∷ part) ∷ parts
]

unfoldable pub fields : Text → List Text
unfolding split_space keep
fields s = keep (λ w. not (is_nil w)) (split_space s)

unfoldable pub decode_flags : Text → FlagSet
unfolding fields add_flags canonical_flag
decode_flags s = add_flags (map canonical_flag (fields s)) []

-- hasFlag
unfoldable pub has_flag : Text → FlagSet → Bool
unfolding any canonical_flag
has_flag flag set = any (λ g. g == canonical_flag flag) set

-- imap.StoreFlags: the operation with its flags.
pub data StoreOp : Type 0 where
  set_flags add_flags_op del_flags : List Text → StoreOp

unfoldable pub del_all : List Text → FlagSet → FlagSet
unfolding keep canonical_flag
del_all [] set = set
del_all (f ∷ fs) set = del_all fs (keep (λ g. not (g == canonical_flag f)) set)

-- message.store
unfoldable pub store : StoreOp → FlagSet → FlagSet
unfolding add_flags canonical_flag del_all
store (set_flags fs) set = add_flags (map canonical_flag fs) []
store (add_flags_op fs) set = add_flags (map canonical_flag fs) set
store (del_flags fs) set = del_all fs set
