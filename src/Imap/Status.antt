-- ===== src/Imap/Status.antt =====
-- internal/imapbackend/mailbox.go: what STATUS, LIST and SELECT report of a folder.
pub mod Counting
mod Tests
use mailroom.Prelude.{
  Bool, List, Option, Text, [], any, codes, false, if◌then◌else◌, keep, length, lookup, nat_eq,
  none, not, some, sort_by, text_eq, text_ltb, true, ℕ, ◌%◌, ◌&&◌, ◌++◌, ◌+◌, ◌-◌, ◌==◌, ◌^◌, ◌||◌,
  ◌∷◌,
}
use mailroom.Imap.{Message}
use mailroom.Imap.Flags.{FlagNames, FlagSet}
use mailroom.Imap.Mailbox.{Mailbox, count_by_flag, first_unseen, total_size, uid_next}

pub record StatusOptions : Type 0 where
  pub num_messages : Bool
  pub uid_next : Bool
  pub uid_validity : Bool
  pub num_unseen : Bool
  pub num_deleted : Bool
  pub size : Bool
  pub num_recent : Bool

-- The library writes 0 where UIDNEXT and UIDVALIDITY are not asked for.
pub record StatusData : Type 0 where
  pub mailbox : Text
  pub num_messages : Option ℕ
  pub uid_next : ℕ
  pub uid_validity : ℕ
  pub num_unseen : Option ℕ
  pub num_deleted : Option ℕ
  pub size : Option ℕ
  pub num_recent : Option ℕ

abbrev asked {ℓ} : {A : Type ℓ} → Bool → A → Option A
asked b a = if b then some a else none

-- A difference of 32-bit numbers, which wraps around.
unfoldable pub sub_u32 : ℕ → ℕ → ℕ
sub_u32 a b = (a + (2 ^ 32 - b % 2 ^ 32)) % 2 ^ 32

-- The rest of statusDataLocked after the reload.
unfoldable pub status_data : FlagNames → StatusOptions → Mailbox → StatusData
unfolding sub_u32 count_by_flag total_size uid_next
status_data names options mbox =
    let num = length mbox.messages % 2 ^ 32 in
    record {
      mailbox = mbox.name;
      num_messages = asked options.num_messages num;
      uid_next = if options.uid_next then uid_next mbox.messages else 0;
      uid_validity = if options.uid_validity then mbox.uid_validity else 0;
      num_unseen =
          asked options.num_unseen (sub_u32 num (count_by_flag names.seen mbox.messages % 2 ^ 32));
      num_deleted = asked options.num_deleted (count_by_flag names.deleted mbox.messages % 2 ^ 32);
      size = asked options.size (total_size mbox.messages);
      num_recent = asked options.num_recent 0;
    }

-- The attributes of RFC 6154.
pub data Attr : Type 0 where
  subscribed sent drafts trash junk no_select : Attr

-- specialUseByName
unfoldable pub special_use_by_name : Text → Option Attr
unfolding lookup
special_use_by_name name = lookup name (
    (codes "Sent", sent)
    ∷ (codes "Drafts", drafts)
    ∷ (codes "Trash", trash)
    ∷ (codes "Junk", junk)
    ∷ [])

pub record ListOptions : Type 0 where
  pub select_subscribed : Bool
  pub select_special_use : Bool
  pub return_special_use : Bool
  pub return_status : Option StatusOptions

-- What LIST says of a folder, its status apart.
pub record ListData : Type 0 where
  pub mailbox : Text
  pub attrs : List Attr

abbrev is_some {ℓ} : {A : Type ℓ} → Option A → Bool
is_some none = false
is_some (some a) = true

abbrev option_list {ℓ} : {A : Type ℓ} → Option A → List A
option_list none = []
option_list (some a) = a ∷ []

-- Mailbox.list, up to the status
unfoldable pub list_data : ListOptions → Mailbox → Option ListData
unfolding special_use_by_name
list_data options mbox =
    let special = special_use_by_name mbox.name in
    if options.select_subscribed && not mbox.subscribed
    then none
    else if options.select_special_use && not (is_some special)
    then none
    else some (record {
      mailbox = mbox.name;
      attrs =
          (if mbox.subscribed then subscribed ∷ [] else [])
          ++ (if options.return_special_use || options.select_special_use
              then option_list special
              else []);
    })

-- The flags of all messages, each once, in the order in which they are first met: flagsLocked puts
-- them into alphabetical order.
unfoldable pub all_flags : List Message → FlagSet
unfolding any
all_flags [] = []
all_flags (m ∷ ms) = m.flags ++ keep (λ g. not (any (λ h. h == g) m.flags)) (all_flags ms)

-- flagsLocked
unfoldable pub flags_of : List Message → List Text
unfolding all_flags sort_by text_ltb
flags_of ms = sort_by text_ltb (all_flags ms)

pub record SelectData : Type 0 where
  pub flags : List Text
  pub permanent_flags : List Text
  pub num_messages : ℕ
  pub first_unseen_seq_num : ℕ
  pub uid_next : ℕ
  pub uid_validity : ℕ

-- selectDataLocked; `wildcard` is the library's flag for any keyword.
unfoldable pub select_data : FlagNames → Text → Mailbox → SelectData
unfolding flags_of first_unseen uid_next
select_data names wildcard mbox =
    let flags = flags_of mbox.messages in
    record {
      flags = flags;
      permanent_flags = flags ++ wildcard ∷ [];
      num_messages = length mbox.messages % 2 ^ 32;
      first_unseen_seq_num = first_unseen names.seen 0 mbox.messages % 2 ^ 32;
      uid_next = uid_next mbox.messages;
      uid_validity = mbox.uid_validity;
    }
