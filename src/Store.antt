-- ===== src/Store.antt =====
-- internal/store: the directory of domains, users, mailboxes, indexed messages, forwarding rules and
-- the relay settings, as the tables of its schema. SQLite and Postgres run the same statements, and
-- a statement fails here for the schema's constraints alone. Creation times are left out: nothing
-- reads them. Identifiers are given in sequence and never twice, as AUTOINCREMENT does.
pub mod Users
pub mod Mailboxes
pub mod Messages
pub mod Settings
mod Tests
use mailroom.Prelude.{
  Bool, List, Option, Text, [], inl, inr, nat_eq, none, refl, text_eq, ℕ, ◌≡◌, ◌⊎◌,
}

pub record Domain : Type 0 where
  pub id : ℕ
  pub name : Text

pub record User : Type 0 where
  pub id : ℕ
  pub domain_id : ℕ
  pub local_part : Text
  pub email : Text
  pub password_hash : Text
  pub is_admin : Bool

pub record Mailbox : Type 0 where
  pub id : ℕ
  pub user_id : ℕ
  pub name : Text
  pub uid_validity : ℕ
  pub uid_next : ℕ
  pub subscribed : Bool

pub record MailboxMessage : Type 0 where
  pub id : ℕ
  pub mailbox_id : ℕ
  pub uid : ℕ
  pub maildir_key : Text
  pub flags : Text
  pub internal_date : ℕ
  pub size : ℕ

pub record Forwarding : Type 0 where
  pub user_id : ℕ
  pub enabled : Bool
  pub forward_to : Text

pub record RelaySettings : Type 0 where
  pub enabled : Bool
  pub host : Text
  pub port : ℕ
  pub username : Text
  pub password : Text

pub record Db : Type 0 where
  pub domains : List Domain
  pub users : List User
  pub mailboxes : List Mailbox
  pub messages : List MailboxMessage
  pub forwarding : List Forwarding
  pub relay_settings : Option RelaySettings
  pub next_domain : ℕ
  pub next_user : ℕ
  pub next_mailbox : ℕ
  pub next_message : ℕ

abbrev pub empty_db : Db
empty_db = record {
  domains = [];
  users = [];
  mailboxes = [];
  messages = [];
  forwarding = [];
  relay_settings = none;
  next_domain = 1;
  next_user = 1;
  next_mailbox = 1;
  next_message = 1;
}

pub data Error : Type 0 where
  not_found constraint hashing : Error

pub data Result (A : Type 0) : Type 0 where
  ok : A → Result A
  err : Error → Result A

pub Result-cases :
    {A : Type 0} (r : Result A) → ((e : Error) × (r ≡ err e)) ⊎ ((a : A) × (r ≡ ok a))
Result-cases (ok a) = inr (a, refl)
Result-cases (err e) = inl (e, refl)
