-- ===== src/Maildir.antt =====
-- internal/maildir/maildir.go: a Maildir as its three directories. A missing directory is `none`.
-- The names that `uniqueName` makes, the modification time of a new file and the faults of the file
-- system are arguments of the calls.
pub mod Names
pub mod Paths
mod Naming
pub mod Lookup
mod Delivery
mod Flags
pub mod Bodies
pub mod Removal
mod Tests
use Names.{split_flags, flagged_name}
use mailroom.Prelude.{
  Bool, List, Option, Text, [], false, if◌then◌else◌, insert, length, lookup, nat_eq, none, remove,
  some, text_eq, text_ltb, true, ℕ, ◌++◌, ◌==◌, ◌∷◌,
}

pub data Node : Type 0 where
  file : Text → ℕ → Node
  directory : Node

abbrev pub Entries : Type 0
Entries = List (Text × Node)

pub record Maildir : Type 0 where
  pub tmp : Option Entries
  pub new : Option Entries
  pub cur : Option Entries

pub data Error : Type 0 where
  not_exist exists io : Error

pub data Result (A : Type 0) : Type 0 where
  ok : A → Result A
  err : Error → Result A

infixl 5 ◌>>=◌
abbrev pub ◌>>=◌ : {A B : Type 0} → Result A → (A → Result B) → Result B
ok a >>= f = f a
err e >>= f = err e

-- Which calls of the file system fail.
pub record Faults : Type 0 where
  pub mkdir : Bool
  pub random : Bool
  pub create : Bool
  pub write : Bool
  pub sync : Bool
  pub close : Bool
  pub rename : Bool
  pub unlink : Bool
  pub read_dir : Bool
  pub read_file : Bool

abbrev pub no_faults : Faults
no_faults = record {
  mkdir = false;
  random = false;
  create = false;
  write = false;
  sync = false;
  close = false;
  rename = false;
  unlink = false;
  read_dir = false;
  read_file = false;
}

abbrev pub entries : Option Entries → Entries
entries none = []
entries (some d) = d

abbrev make : Option Entries → Option Entries
make d = some (entries d)

-- Init: a fault stops it before the first directory.
unfoldable pub init : Faults → Maildir → Result Maildir
init f m =
    if f.mkdir then err io else ok (record { tmp = make m.tmp; new = make m.new; cur = make m.cur })

abbrev no_file : Faults → Text → Maildir → Maildir
no_file f name m = if f.unlink then m else record m { tmp = some (remove name (entries m.tmp)) }

-- Deliver: the state after it, and the name or the error.
unfoldable pub deliver : Faults → Text → ℕ → Text → Maildir → Maildir × Result Text
unfolding init insert remove lookup
deliver f name now content m = elim (init f m) [
  | err e ↦ (m, err e)
  | ok m1 ↦
      if f.random
      then (m1, err io)
      else if f.create
      then (m1, err io)
      else elim (lookup name (entries m1.tmp)) [
        | some _ ↦ (m1, err exists)
        | none ↦
            let empty_file = record m1 {
              tmp = some (insert name (file [] now) (entries m1.tmp));
            } in
            let full_file = record m1 {
              tmp = some (insert name (file content now) (entries m1.tmp));
            } in
            if f.write
            then (no_file f name empty_file, err io)
            else if f.sync
            then (no_file f name full_file, err io)
            else if f.close
            then (no_file f name full_file, err io)
            else if f.rename
            then (no_file f name full_file, err io)
            else (
              record {
                tmp = some (remove name (entries full_file.tmp));
                new = some (insert name (file content now) (entries m1.new));
                cur = m1.cur;
              },
              ok name,
            )
      ]
]

-- The first entry of a directory whose name has the key.
unfoldable pub scan : Text → Entries → Option (Text × Node)
unfolding split_flags
scan key [] = none
scan key ((name, node) ∷ d) =
    let rest = scan key d in if (split_flags name).0 == key then some (name, node) else rest

pub data Place : Type 0 where
  in_new in_cur : Place

-- find, with the file beside its name.
unfoldable pub find : Faults → Text → Maildir → Result (Place × Text × Node)
unfolding scan
find f key m = if f.read_dir then err io else elim (scan key (entries m.new)) [
  | some (name, node) ↦ ok (in_new, name, node)
  | none ↦ elim (scan key (entries m.cur)) [
    | some (name, node) ↦ ok (in_cur, name, node)
    | none ↦ err not_exist
  ]
]

read_node : Faults → Node → Result Text
read_node f directory = err io
read_node f (file content t) = if f.read_file then err io else ok content

unfoldable pub open_message : Faults → Text → Maildir → Result Text
unfolding find read_node
open_message f key m = find f key m >>= λ found. read_node f found.2

-- Stat: the size and the modification time; a directory has none that the program reads.
stat_node : Node → Result (ℕ × ℕ)
stat_node directory = err io
stat_node (file content t) = ok (length content, t)

unfoldable pub stat : Faults → Text → Maildir → Result (ℕ × ℕ)
unfolding find stat_node
stat f key m = find f key m >>= λ found. stat_node found.2

unlink_at : Place → Text → Maildir → Maildir
unfolding remove
unlink_at in_new name m = record m { new = some (remove name (entries m.new)) }
unlink_at in_cur name m = record m { cur = some (remove name (entries m.cur)) }

-- A rename into `cur`, which fails where that directory is missing.
unfoldable pub into_cur : Option Entries → Maildir → Maildir → Maildir × Result (Unit {0})
into_cur none m moved = (m, err io)
into_cur (some d) m moved = (moved, ok tt)

-- SetFlags renames the file, from `new` or `cur` to `cur`.
unfoldable pub set_flags : Faults → Text → Text → Maildir → Maildir × Result (Unit {0})
unfolding find flagged_name unlink_at insert into_cur
set_flags f key flags m = elim (find f key m) [
  | err e ↦ (m, err e)
  | ok (place, name, node) ↦
      if f.rename
      then (m, err io)
      else let gone = unlink_at place name m in
        into_cur m.cur m
          (record gone { cur = some (insert (flagged_name key flags) node (entries gone.cur)) })
]

-- Remove
unfoldable pub remove_message : Faults → Text → Maildir → Maildir × Result (Unit {0})
unfolding find unlink_at
remove_message f key m = elim (find f key m) [
  | err e ↦ (m, err e)
  | ok (place, name, node) ↦ if f.unlink then (m, err io) else (unlink_at place name m, ok tt)
]

pub record Message : Type 0 where
  pub key : Text
  pub flags : Text
  pub in_new_dir : Bool

-- The messages of one directory; directories inside it are skipped.
unfoldable pub messages : Bool → Entries → List Message
unfolding split_flags
messages fresh [] = []
messages fresh ((name, directory) ∷ d) = messages fresh d
messages fresh ((name, file content t) ∷ d) =
    record { key = (split_flags name).0; flags = (split_flags name).1; in_new_dir = fresh }
    ∷ messages fresh d

place_message : Message → List Message → List Message
unfolding text_ltb
place_message m [] = m ∷ []
place_message m (n ∷ ns) = if text_ltb n.key m.key then n ∷ place_message m ns else m ∷ n ∷ ns

-- sort.Slice by key. Messages with equal keys, whose order Go leaves open, stay in their order.
unfoldable pub sort_messages : List Message → List Message
unfolding place_message
sort_messages [] = []
sort_messages (m ∷ ms) = place_message m (sort_messages ms)

-- List
unfoldable pub list : Faults → Maildir → Result (List Message)
unfolding messages sort_messages
list f m =
    if f.read_dir
    then err io
    else ok (sort_messages (messages true (entries m.new) ++ messages false (entries m.cur)))
