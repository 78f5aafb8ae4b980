-- ===== src/Imap/User/Tests.antt =====
-- Runs of internal/imapbackend/user.go: a user with INBOX and the folders A and B, the first two open.
use mailroom.Prelude.{
  Text, [], any, arith, codes, equal_fold, find_first, lookup, nat_eq, none, refl, some, ap, false,
  text_eq, ℕ, ◌∷◌, ◌≡◌, true,
}
use mailroom.Address.{last_index_byte, split}
use mailroom.Maildir.{Maildir, file, no_faults}
use mailroom.Maildir.Paths.{FilePath}
use mailroom.Store.{User, Mailbox as Row, empty_db}
use mailroom.Store.Mailboxes.{get_mailbox}
use mailroom.Imap.{done, failed, no_such_mailbox}
use mailroom.Imap.Disk.Paths.{path_eq, under}
use mailroom.Imap.Flags.{FlagNames}
use mailroom.Imap.User.{
  DbFaults, Shared, State, canonical_mailbox_name, delete, folder_root, mailbox_locked, rename,
  root_of,
}
use mailroom.Imap.User.Removal.{IsPlain, delete-others, delete_inbox_wipes}
use mailroom.Imap.User.Renaming.{Renamed, rename_lem}

abbrev names : FlagNames
names = record {
  seen = codes "\\Seen";
  answered = codes "\\Answered";
  flagged = codes "\\Flagged";
  deleted = codes "\\Deleted";
  draft = codes "\\Draft";
}

abbrev first : Text → ℕ
first [] = 0
first (c ∷ s) = c

abbrev alice : User
alice = record {
  id = 1;
  domain_id = 1;
  local_part = codes "al";
  email = codes "al@e";
  password_hash = [];
  is_admin = false;
}

abbrev base : FilePath
base = record { rooted = true; segments = codes "m" ∷ [] }

abbrev home : FilePath
home = record { rooted = true; segments = codes "m" ∷ codes "e" ∷ codes "al" ∷ [] }

abbrev home_a : FilePath
home_a = record { rooted = true; segments = codes "m" ∷ codes "e" ∷ codes "al" ∷ codes ".A" ∷ [] }

abbrev home_b : FilePath
home_b = record { rooted = true; segments = codes "m" ∷ codes "e" ∷ codes "al" ∷ codes ".B" ∷ [] }

abbrev one_letter : Maildir
one_letter = record {
  tmp = some [];
  new = some ((codes "a", file (codes "hi") 1) ∷ []);
  cur = some [];
}

abbrev row : ℕ → Text → Row
row id name = record {
  id = id;
  user_id = 1;
  name = name;
  uid_validity = 9;
  uid_next = 1;
  subscribed = true;
}

abbrev opened_at : FilePath → ℕ → Text → Shared
opened_at p id name = record {
  root = p;
  mailbox = record { db_id = id; name = name; uid_validity = 9; subscribed = true; messages = [] };
}

abbrev state : State
state = record {
  disk = (home, one_letter) ∷ (home_a, one_letter) ∷ (home_b, one_letter) ∷ [];
  db = record empty_db {
    mailboxes = row 1 (codes "INBOX") ∷ row 2 (codes "A") ∷ row 3 (codes "B") ∷ [];
  };
  mailboxes =
      (codes "INBOX", opened_at home 1 (codes "INBOX"))
      ∷ (codes "A", opened_at home_a 2 (codes "A"))
      ∷ [];
}

b-IsPlain : IsPlain (codes "B")
unfolding equal_fold
b-IsPlain = record {
  filled = λ e. cc e;
  no_dot = λ e. absurd (omega (arith, ap first e));
  no_inbox = refl;
  no_slash = ((λ e. omega (arith, e)), tt);
}

delete_inbox_wipes_example :
    let (s1, answer) = delete names no_faults 5 base alice (codes "inbox") state in
    (answer ≡ done tt)
    × (lookup (folder_root names no_faults 5 base alice (codes "B")) s1.disk ≡ none)
    × (get_mailbox 1 (codes "B") s1.db ≡ some (row 3 (codes "B")))
unfolding canonical_mailbox_name lookup root_of get_mailbox split last_index_byte
delete_inbox_wipes_example =
    delete_inbox_wipes names no_faults 5 base alice (codes "inbox") (codes "B") state
      (opened_at home 1 (codes "INBOX")) (row 3 (codes "B")) refl refl refl refl b-IsPlain refl
      (λ e. omega (arith, e))

a-IsPlain : IsPlain (canonical_mailbox_name (codes "A/"))
unfolding equal_fold canonical_mailbox_name
a-IsPlain = record {
  filled = λ e. cc e;
  no_dot = λ e. absurd (omega (arith, ap first e));
  no_inbox = refl;
  no_slash = ((λ e. omega (arith, e)), tt);
}

delete-others_example :
    let (s1, answer) = delete names no_faults 5 base alice (codes "A/") state in
    (answer ≡ done tt)
    × (lookup home_a s1.disk ≡ none)
    × (lookup (folder_root names no_faults 5 base alice (codes "B")) s1.disk
        ≡ lookup (folder_root names no_faults 5 base alice (codes "B")) state.disk)
    × (get_mailbox 1 (codes "B") s1.db ≡ some (row 3 (codes "B")))
    × ((mailbox_locked names no_faults 5 base alice (canonical_mailbox_name (codes "A/")) s1).1
        ≡ failed no_such_mailbox)
unfolding canonical_mailbox_name lookup root_of get_mailbox split folder_root last_index_byte
delete-others_example =
    delete-others names no_faults 5 base alice (codes "A/") (codes "B") state
      (opened_at home_a 2 (codes "A")) (row 3 (codes "B")) refl refl refl a-IsPlain b-IsPlain
      (λ e. omega (arith, ap first e)) refl (λ e. omega (arith, e))
      ((λ e. cc e), ((λ e. refl), ((λ e. cc e), tt)))

-- A database that fails at the UPDATE alone.
abbrev no_update : DbFaults
no_update = record { get = false; update = true }

rename_lem_example :
    Renamed no_update home_a
      (folder_root names no_faults 5 base alice (canonical_mailbox_name (codes "C")))
      1
      (canonical_mailbox_name (codes "C"))
      (row 2 (codes "A"))
      state
      (rename names no_faults 5 base alice no_update (codes "A") (codes "C") state)
unfolding canonical_mailbox_name lookup root_of split folder_root find_first any under
    last_index_byte
rename_lem_example =
    rename_lem names no_faults 5 base alice no_update (codes "A") (codes "C") state
      (opened_at home_a 2 (codes "A")) (row 2 (codes "A")) refl refl refl refl
