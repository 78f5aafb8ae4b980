-- ===== src/Webmail/Mail.antt =====
-- internal/webmail/mail_handlers.go: the pages of a folder, over the calls of Imap.Facade. Templates
-- and the summaries of messages are left out. A path value is a text; parseUID reads it as a number
-- of 32 bits.
pub mod Flags
use mailroom.Prelude.{
  List, Option, Text, [], any, equal_fold, if◌then◌else◌, is_nil, ltb, nat_eq, none, some, text_eq,
  ℕ, not, keep, ◌++◌, ◌==◌, ◌^◌, ◌∷◌,
}
use mailroom.Imap.{Answer, done, failed}
use mailroom.Imap.Facade.{delete, get_summary, set_flags}
use mailroom.Imap.Flags.{FlagNames}
use mailroom.Imap.User.{State}
use mailroom.Maildir.{Faults}
use mailroom.Maildir.Paths.{FilePath}
use mailroom.Store.{User}
use mailroom.Webmail.Admin.{atoi, digits_value}

-- parsePage; a blank, malformed or zero number is page 1.
unfoldable pub parse_page : Text → ℕ
unfolding atoi
parse_page p = elim (atoi p) [ none ↦ 1 | some n ↦ if n == 0 then 1 else n ]

-- parseUID
unfoldable pub parse_uid : Text → Option ℕ
unfolding digits_value
parse_uid value = if is_nil value then none else elim (digits_value 0 value) [
  | none ↦ none
  | some n ↦ if ltb n (2 ^ 32) then some n else none
]

-- toggleFlag
unfoldable pub toggle_flag : List Text → Text → List Text
unfolding keep any equal_fold
toggle_flag flags flag =
    let out = keep (λ g. not (equal_fold g flag)) flags in
    if any (λ g. equal_fold g flag) flags then out else out ++ flag ∷ []

pub data Reply : Type 0 where
  not_found message_not_found server_error : Reply
  to_message : Text → ℕ → Reply
  to_folder : Text → Reply

abbrev pub reply_or : Reply → Answer (Unit {0}) → Reply
reply_or r (done _) = r
reply_or r (failed e) = server_error

module _ (names : FlagNames) (f : Faults) (now : ℕ) (base : FilePath) (u : User) where
  -- handleFlag, of a form that can be parsed
  unfoldable pub handle_flag : Text → Text → Text → State → State × Reply
  unfolding parse_uid get_summary set_flags toggle_flag
  handle_flag folder value flag s = elim (parse_uid value) [
    | none ↦ (s, not_found)
    | some uid ↦
        let (s1, summary) = get_summary names f now base u folder uid s in
        elim summary [
          | failed _ ↦ (s1, message_not_found)
          | done msg ↦
              let (s2, answer) =
                set_flags names f now base u folder uid (toggle_flag msg.flags flag) s1 in
              (s2, reply_or (to_message folder uid) answer)
        ]
  ]

  -- handleDelete
  unfoldable pub handle_delete : Text → Text → Text → State → State × Reply
  unfolding parse_uid delete
  handle_delete unique folder value s = elim (parse_uid value) [
    | none ↦ (s, not_found)
    | some uid ↦
        let (s1, answer) = delete names f now base u unique folder uid s in
        (s1, reply_or (to_folder folder) answer)
  ]
