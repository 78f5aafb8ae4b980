-- ===== src/Mailsend.antt =====
-- internal/mailsend/mailsend.go, with IsLocalDomain of internal/config/config.go. What is stored is a
-- log of effects, and whether the next one succeeds is an argument that may depend on the earlier
-- ones: Deliver and Enqueue, modelled on their own, leave nothing that is read where they fail.
mod Dispatch
pub mod Tests
use mailroom.Prelude.{
  Bool, List, Option, Text, [], any, codes, equal_fold, if◌then◌else◌, nat_eq, none, some, text_eq,
  ◌++◌, ◌∷◌,
}
use mailroom.Address.{split}
use mailroom.Maildir.Paths.{FilePath, folder_path, user_root}

pub record Config : Type 0 where
  pub domains : List Text
  pub hostname : Text
  pub maildir_path : FilePath

-- IsLocalDomain
unfoldable pub is_local_domain : Config → Text → Bool
unfolding any equal_fold
is_local_domain cfg domain = any (λ d. equal_fold d domain) cfg.domains

-- A message stored in a Maildir, or put into the queue for a recipient.
pub data Effect : Type 0 where
  delivered : FilePath → Text → Effect
  queued : Text → Text → Text → Effect

abbrev pub Log : Type 0
Log = List Effect

abbrev pub Outlet : Type 0
Outlet = Log → Effect → Bool

-- The folder of a user's Maildir.
unfoldable pub folder_of : Config → Text → Text → Text → FilePath
unfolding folder_path user_root
folder_of cfg domain local_part folder =
    folder_path (user_root cfg.maildir_path domain local_part) folder

pub data SendResult : Type 0 where
  sent : Text → SendResult
  invalid_sender signing_failed : SendResult
  invalid_recipient not_stored : Text → SendResult

-- Where one recipient's copy goes; `none` where the address is malformed.
unfoldable pub route : Config → Text → Text → Text → Option Effect
unfolding is_local_domain folder_of
route cfg from full rcpt = elim (split rcpt) [
  | none ↦ none
  | some (local_part, domain) ↦ some (
      if is_local_domain cfg domain
      then delivered (folder_of cfg domain local_part (codes "INBOX")) full
      else queued from rcpt full)
]

-- The loop of Send over the recipients.
unfoldable pub dispatch : Config → Outlet → Text → Text → List Text → Log → Log × SendResult
unfolding route
dispatch cfg stores from full [] log = (log, sent full)
dispatch cfg stores from full (rcpt ∷ rcpts) log =
    let rest = λ (l : Log). dispatch cfg stores from full rcpts l in
    elim (route cfg from full rcpt) [
      | none ↦ (log, invalid_recipient rcpt)
      | some e ↦ if stores log e then rest (log ++ e ∷ []) else (log, not_stored rcpt)
    ]

-- What is signed for the sender's domain; no signer leaves the content.
unfoldable pub signed : Option (Text → Text → Option Text) → Text → Text → SendResult
signed none from content = sent content
signed (some sign) from content = elim (split from) [
  | none ↦ invalid_sender
  | some (local_part, domain) ↦ elim (sign domain content) [
    | none ↦ signing_failed
    | some full ↦ sent full
  ]
]

-- Send
unfoldable pub send :
    Config
    → Outlet
    → Option (Text → Text → Option Text)
    → Text
    → List Text
    → Text
    → Log
    → Log × SendResult
unfolding dispatch signed
send cfg stores signer from rcpts content log = elim (signed signer from content) [
  | sent full ↦ dispatch cfg stores from full rcpts log
  | failure ↦ (log, failure)
]
