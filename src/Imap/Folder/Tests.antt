-- ===== src/Imap/Folder/Tests.antt =====
-- Runs of the folders of internal/imapbackend: one message in the inbox.
use mailroom.Prelude.{
  arith, to_lower, true, [], codes, false, nat_eq, refl, some, text_eq, ◌∷◌, ◌≡◌, ◌⊎◌,
}
use mailroom.Maildir.{file, no_faults, open_message, scan}
use mailroom.Maildir.Bodies.{IsFresh, Keeps}
use mailroom.Maildir.Lookup.{IsMaildir, place_of}
use mailroom.Store.{empty_db}
use mailroom.Imap.{Message}
use mailroom.Imap.Flags.{FlagNames, has_flag}
use mailroom.Imap.Flags.Letters.{IsCapital}
use mailroom.Imap.Mailbox.{find_by_uid}
use mailroom.Imap.Folder.{Folder, get_message, move_to}
use mailroom.Imap.Folder.Moving.{Copied, move_to-Copied}
use mailroom.Imap.Folder.Opening.{opened_unseen}

-- The names as RFC 3501 spells them.
abbrev names : FlagNames
names = record {
  seen = codes "\\Seen";
  answered = codes "\\Answered";
  flagged = codes "\\Flagged";
  deleted = codes "\\Deleted";
  draft = codes "\\Draft";
}

names-IsCapital : IsCapital names
unfolding to_lower
names-IsCapital = (refl, (refl, (refl, (refl, (refl, tt)))))

abbrev letter : Message
letter = record { uid = 4; key = codes "a"; date = 1; size = 2; flags = [] }

abbrev inbox : Folder
inbox = record {
  maildir = record {
    tmp = some [];
    new = some [];
    cur = some ((codes "a:2,", file (codes "hi") 1) ∷ []);
  };
  mailbox = record {
    db_id = 1;
    name = codes "INBOX";
    uid_validity = 9;
    subscribed = true;
    messages = letter ∷ [];
  };
}

abbrev trash : Folder
trash = record {
  maildir = record { tmp = some []; new = some []; cur = some [] };
  mailbox = record {
    db_id = 2;
    name = codes "Trash";
    uid_validity = 9;
    subscribed = true;
    messages = [];
  };
}

opened_unseen_example :
    (m : Message) × (find_by_uid 4
        (get_message names no_faults 4 (inbox, empty_db)).0.0.mailbox.messages
      ≡ some m)
    × (has_flag (codes "\\Seen") m.flags ≡ false)
unfolding find_by_uid has_flag
opened_unseen_example =
    opened_unseen names no_faults 4 letter inbox empty_db names-IsCapital refl refl

inbox-IsMaildir : IsMaildir inbox.maildir
unfolding scan
inbox-IsMaildir = record { once_new = tt; once_cur = (refl, tt); apart = λ k p q. cc q }

trash-IsMaildir : IsMaildir trash.maildir
unfolding scan
trash-IsMaildir = record { once_new = tt; once_cur = tt; apart = λ k p q. cc q }

new_name-IsFresh : IsFresh (codes "b") trash.maildir
unfolding scan place_of
new_name-IsFresh = record { plain = omega arith; own = refl; unused = refl }

move_to-Copied_example :
    let (folders, answer) = move_to names no_faults 7 (codes "b") 4 (inbox, trash, empty_db) in
    Keeps inbox.maildir folders.0.maildir (codes "a")
    × Keeps trash.maildir folders.1.maildir (codes "b")
    × ((folders.0.maildir ≡ inbox.maildir) ⊎ Copied 7 (codes "b") (codes "hi") trash folders.1)
unfolding find_by_uid open_message
move_to-Copied_example =
    move_to-Copied names no_faults 7 (codes "b") 4 inbox trash empty_db letter (codes "hi") refl
      refl new_name-IsFresh trash-IsMaildir inbox-IsMaildir
