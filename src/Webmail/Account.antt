-- ===== src/Webmail/Account.antt =====
-- internal/webmail/account_handlers.go: a user's own password and forwarding rule. Whether
-- net/mail accepts an address is an argument.
pub mod Forwarding
mod Tests
use mailroom.Prelude.{
  Bool, Option, Text, codes, if◌then◌else◌, is_nil, length, ltb, nat_eq, not, text_eq, to_lower,
  trim_space, ◌&&◌, ◌==◌, ◌||◌,
}
use mailroom.Store.{Db, User}
use mailroom.Store.Settings.{set_forwarding}
use mailroom.Store.Users.{Bcrypt}
use mailroom.Imap.Accounts.{change_password}
use mailroom.Webmail.Access.{handle_logout}
use mailroom.Webmail.Sessions.{SessionStore}

pub data Notice : Type 0 where
  fields_required too_short not_confirmed not_changed changed : Notice
  address_required invalid_address own_address saved : Notice

pub record PasswordForm : Type 0 where
  pub current_password : Text
  pub new_password : Text
  pub confirm_password : Text

abbrev pub Place : Type 0
Place = SessionStore × Db

-- handleAccountPasswordChange, of a form that was parsed; a changed password logs the browser out.
unfoldable pub handle_account_password_change :
    Bcrypt → User → Option Text → PasswordForm → Place → Place × Notice
unfolding change_password handle_logout
handle_account_password_change b account cookie form (sessions, db) =
    let (db1, done) = change_password b account form.current_password form.new_password db in
    if is_nil form.current_password || is_nil form.new_password
    then ((sessions, db), fields_required)
    else if ltb (length form.new_password) 8
    then ((sessions, db), too_short)
    else if not (form.new_password == form.confirm_password)
    then ((sessions, db), not_confirmed)
    else if done
    then ((handle_logout cookie sessions, db1), changed)
    else ((sessions, db1), not_changed)

pub record ForwardingForm : Type 0 where
  pub forwarding_enabled : Text
  pub forward_to : Text

-- handleAccountForwarding, of a form that was parsed.
unfoldable pub handle_account_forwarding : (Text → Bool) → User → ForwardingForm → Db → Db × Notice
unfolding to_lower trim_space set_forwarding
handle_account_forwarding is_valid account form db =
    let enabled = form.forwarding_enabled == codes "on" in
    let forward_to = to_lower (trim_space form.forward_to) in
    if enabled && is_nil forward_to
    then (db, address_required)
    else if enabled && not (is_valid forward_to)
    then (db, invalid_address)
    else if enabled && forward_to == to_lower account.email
    then (db, own_address)
    else (set_forwarding account.id enabled forward_to db, saved)
