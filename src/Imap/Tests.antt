-- ===== src/Imap/Tests.antt =====
-- Runs of internal/imapbackend: one mailbox with an indexed message and a file that is new.
use mailroom.Prelude.{
  to_lower, is_space, map, All, Ascending, List, any, keep, length, not, some, ◌==◌, ℕ, true,
  find_first, [], arith, codes, false, nat_eq, none, refl, text_eq, ◌∷◌, ◌≡◌,
}
use mailroom.Maildir.{Maildir, Message as FileMessage, file, list, no_faults}
use mailroom.Store.{Db, empty_db}
use mailroom.Store.Messages.{uid_next_of}
use mailroom.Store.Messages.Index.{IsIndexed}
use mailroom.Store.Messages.Rows.{uid_in}
use mailroom.Imap.{Message, done}
use mailroom.Imap.Flags.{
  FlagNames, flag_set_from_maildir_letters, has_flag, maildir_letters_from_flag_list,
}
use mailroom.Imap.Flags.Columns.{Atom}
use mailroom.Imap.Flags.Letters.{IsCapital, letters_lost}
use mailroom.Imap.Mailbox.{Mailbox, expunge_locked, key_of_file, reload, to_expunge}
use mailroom.Imap.Mailbox.Expunge.{drop_seqs, expunge_locked_lem}
use mailroom.Imap.Mailbox.Indexing.{Agrees}
use mailroom.Imap.Mailbox.Reload.{Keeps, reload_lem}

-- The names as RFC 3501 spells them.
abbrev names : FlagNames
names = record {
  seen = codes "\\Seen";
  answered = codes "\\Answered";
  flagged = codes "\\Flagged";
  deleted = codes "\\Deleted";
  draft = codes "\\Draft";
}

names-IsCapital : IsCapital names
unfolding to_lower
names-IsCapital = (refl, (refl, (refl, (refl, (refl, tt)))))

seen_work-Atom : All Atom (codes "\\Seen" ∷ codes "work" ∷ [])
unfolding is_space
seen_work-Atom = (
  (refl, (refl, (refl, (refl, (refl, (refl, tt)))))),
  ((refl, (refl, (refl, (refl, (refl, tt))))), tt),
)

letters_lost_example :
    (maildir_letters_from_flag_list names (codes "\\seen" ∷ codes "\\deleted" ∷ []) ≡ [])
    × (has_flag (codes "\\Seen") (flag_set_from_maildir_letters names (codes "S")) ≡ false)
letters_lost_example =
    letters_lost names (codes "\\seen" ∷ codes "\\deleted" ∷ []) (codes "\\Seen") (codes "S")
      names-IsCapital

abbrev old_message : Message
old_message = record { uid = 4; key = codes "a"; date = 1; size = 2; flags = [] }

abbrev second_message : Message
second_message = record {
  uid = 6;
  key = codes "b";
  date = 1;
  size = 2;
  flags = codes "\\deleted" ∷ [];
}

expunge_locked_lem_example :
    ((expunge_locked (to_expunge names.deleted none) (old_message ∷ second_message ∷ [])).1
      ≡ keep (λ m. not (to_expunge names.deleted none m)) (old_message ∷ second_message ∷ []))
    × (drop_seqs
          (expunge_locked (to_expunge names.deleted none) (old_message ∷ second_message ∷ [])).0
          (old_message ∷ second_message ∷ [])
        ≡ (expunge_locked (to_expunge names.deleted none) (old_message ∷ second_message ∷ [])).1)
expunge_locked_lem_example =
    expunge_locked_lem (to_expunge names.deleted none) (old_message ∷ second_message ∷ [])

-- The message of UID 4 is indexed; a file "b" has come.
abbrev indexed : Db
indexed = record empty_db {
  messages =
      record {
        id = 1;
        mailbox_id = 1;
        uid = 4;
        maildir_key = codes "a";
        flags = [];
        internal_date = 1;
        size = 2;
      }
      ∷ [];
  mailboxes =
      record {
        id = 1;
        user_id = 1;
        name = codes "INBOX";
        uid_validity = 9;
        uid_next = 5;
        subscribed = true;
      }
      ∷ [];
}

abbrev inbox : Mailbox
inbox = record {
  db_id = 1;
  name = codes "INBOX";
  uid_validity = 9;
  subscribed = true;
  messages = old_message ∷ [];
}

abbrev two_files : Maildir
two_files = record {
  tmp = some [];
  new = some ((codes "b", file (codes "hello") 7) ∷ []);
  cur = some ((codes "a:2,S", file (codes "hi") 1) ∷ []);
}

abbrev two_keys : List FileMessage
two_keys =
    record { key = codes "a"; flags = codes "S"; in_new_dir = false }
    ∷ record { key = codes "b"; flags = []; in_new_dir = true }
    ∷ []

reload_lem_example :
    let (db1, mbox1, answer) = reload names no_faults 3 two_files indexed inbox in
    (answer ≡ done tt)
    × All (Agrees 1 db1) mbox1.messages
    × Ascending (λ (m : Message). m.uid) mbox1.messages
    × (length mbox1.messages ≡ length two_keys)
    × (any (λ m. m.key == codes "a") mbox1.messages ≡ any (λ dm. dm.key == codes "a") two_keys)
    × Keeps
        (any (λ j. j == codes "a") (map key_of_file two_keys))
        (uid_in 1 (codes "a") indexed.messages)
        (uid_in 1 (codes "a") db1.messages)
    × ((n1 : ℕ) × (uid_next_of 1 db1 ≡ some n1) × IsIndexed 1 n1 db1.messages)
unfolding list uid_next_of find_first uid_in
reload_lem_example =
    reload_lem names no_faults 3 5 two_files indexed inbox two_keys (codes "a") refl
      ((ground arith, tt), (tt, tt)) refl
      (record { below = (λ e. omega arith, tt); apart = (tt, tt) }) (omega arith) (refl, tt)
