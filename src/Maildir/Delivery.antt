-- ===== src/Maildir/Delivery.antt =====
-- internal/maildir/maildir.go: `Deliver` puts the whole message into `new`, or nothing anywhere.

use mailroom.Prelude.{
  Text, [], arith, false, if◌then◌else◌, insert, lookup, lookup-insert, lookup-remove, nat_eq, none,
  remove, some, text_beq_iff, text_eq, ℕ, ◌==◌, ◌≡◌,
}
use mailroom.Maildir.{
  Entries, Faults, Maildir, Node, Result, deliver, entries, err, file, in_new, ok, scan,
}
use mailroom.Maildir.Lookup.{first_place, key_of, place_of, scan-insert}

-- How a delivery under `name` leaves the message of a key, and a file of `tmp`.
abbrev pub Delivered : Maildir → Text → Node → Text → Maildir → Result Text → Type 0
Delivered m name node key m' (ok n) =
    (n ≡ name)
    × (place_of key m' ≡ (if key_of name == key then some (in_new, name, node) else place_of key m))
    × (lookup key (entries m'.tmp) ≡ lookup key (entries m.tmp))
Delivered m name node key m' (err e) =
    (place_of key m' ≡ place_of key m) × (lookup key (entries m'.tmp) ≡ lookup key (entries m.tmp))

-- A file that is written to `tmp` and unlinked leaves no trace.
tmp_restored :
    (name key : Text) (node : Node) (d : Entries)
    → lookup name d ≡ none
    → lookup key (remove name (insert name node d)) ≡ lookup key d
tmp_restored name key node d h = ground (
  arith,
  lookup-remove name key (insert name node d),
  lookup-insert name key node d,
  text_beq_iff name key,
  h,
)

place-delivered :
    (m : Maildir) (name key : Text) (node : Node)
    → place_of (key_of name) m ≡ none
    → first_place (scan key (insert name node (entries m.new))) (scan key (entries m.cur))
      ≡ (if key_of name == key then some (in_new, name, node) else place_of key m)
unfolding place_of
place-delivered m name key node h =
    ground (arith, scan-insert key name node (entries m.new), text_beq_iff (key_of name) key)

-- Whatever fails, a delivery is whole or not at all: either it answers the name and the message of
-- that key is the new file in `new`, with its content and time, or it answers an error and every
-- key's message is as it was; other keys' messages and every file of `tmp` are as they were. The
-- name is no key in use, and files can be unlinked.
pub deliver_atomic :
    (f : Faults) (name content key : Text) (now : ℕ) (m : Maildir)
    → f.unlink ≡ false
    → place_of (key_of name) m ≡ none
    → Delivered m name
        (file content now)
        key
        (deliver f name now content m).0
        (deliver f name now content m).1
unfolding deliver place_of
deliver_atomic f name content key now m u h = ground (
  arith,
  place-delivered m name key (file content now) h,
  tmp_restored name key (file content now) (entries m.tmp),
  tmp_restored name key (file [] now) (entries m.tmp),
)
