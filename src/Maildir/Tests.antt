-- ===== src/Maildir/Tests.antt =====
-- Runs of internal/maildir/maildir.go.
use mailroom.Prelude.{
  [], arith, codes, false, nat_eq, refl, some, text_beq_iff, text_eq, true, ◌∷◌, ◌≡◌,
}
use mailroom.Maildir.{Faults, Maildir, deliver, file, list, no_faults, ok, scan, set_flags}
use mailroom.Maildir.Lookup.{IsMaildir, place_of}
use mailroom.Maildir.Delivery.{Delivered, deliver_atomic}
use mailroom.Maildir.Flags.{FlagsSet, set_flags_lem}

-- One unread message and one that was answered.
abbrev two_messages : Maildir
two_messages = record {
  tmp = some [];
  new = some ((codes "k2", file (codes "hello") 7) ∷ []);
  cur = some ((codes "k1:2,R", file (codes "hi") 3) ∷ []);
}

two_messages-IsMaildir : IsMaildir two_messages
unfolding scan
two_messages-IsMaildir = record {
  once_new = (refl, tt);
  once_cur = (refl, tt);
  apart = λ k p q. ground (arith, q, text_beq_iff (codes "k2") k, text_beq_iff (codes "k1") k);
}

listed :
    list no_faults two_messages
    ≡ ok (
        record { key = codes "k1"; flags = codes "R"; in_new_dir = false }
        ∷ record { key = codes "k2"; flags = []; in_new_dir = true }
        ∷ [])
unfolding list
listed = refl

full_disk : Faults
full_disk = record no_faults { sync = true }

deliver_atomic_example :
    Delivered two_messages
      (codes "k3")
      (file (codes "new") 9)
      (codes "k3")
      (deliver full_disk (codes "k3") 9 (codes "new") two_messages).0
      (deliver full_disk (codes "k3") 9 (codes "new") two_messages).1
unfolding full_disk place_of scan
deliver_atomic_example =
    deliver_atomic full_disk (codes "k3") (codes "new") (codes "k3") 9 two_messages refl refl

set_flags_lem_example :
    IsMaildir (set_flags no_faults (codes "k2") (codes "S") two_messages).0
    × FlagsSet
        (codes "k2")
        (codes "S")
        (codes "k2")
        two_messages
        (set_flags no_faults (codes "k2") (codes "S") two_messages)
set_flags_lem_example =
    set_flags_lem (codes "k2") (codes "S") (codes "k2") two_messages (omega arith)
      two_messages-IsMaildir
