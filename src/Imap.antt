-- ===== src/Imap.antt =====
-- internal/imapbackend: the mailboxes that IMAP sessions and the web mail share.
pub mod Accounts
pub mod Disk
pub mod Facade
pub mod Flags
pub mod Mailbox
pub mod Paging
pub mod Folder
pub mod Provision
pub mod Search
pub mod Session
pub mod Status
pub mod User
pub mod Tests
use mailroom.Prelude.{List, Text, nat_eq, text_eq, ℕ}
use mailroom.Maildir
use mailroom.Store

pub data Failure : Type 0 where
  maildir_failure : Maildir.Error → Failure
  store_failure : Store.Error → Failure
  database_failure no_message no_such_mailbox already_exists : Failure

pub data Answer (A : Type 0) : Type 0 where
  done : A → Answer A
  failed : Failure → Answer A

-- One file of a Maildir as IMAP sees it; `date` is the field `t`.
pub record Message : Type 0 where
  pub uid : ℕ
  pub key : Text
  pub date : ℕ
  pub size : ℕ
  pub flags : List Text
