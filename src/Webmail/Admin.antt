-- ===== src/Webmail/Admin.antt =====
-- internal/webmail/admin_handlers.go: the directory of mailboxes and the relay's settings. A handler
-- answers the page with a notice, or a redirect. The text of the notices is left out.
pub mod Deletion
pub mod RelayForms
mod Tests
use mailroom.Prelude.{
  Bool, List, Option, Text, [], codes, equal_fold, if◌then◌else◌, is_nil, leb, ltb, map, nat_eq,
  none, not, some, text_eq, to_lower, trim_space, ℕ, ◌&&◌, ◌*◌, ◌+◌, ◌-◌, ◌==◌, ◌||◌, ◌∷◌,
}
use mailroom.Address.{split}
use mailroom.Mailsend.{Config, is_local_domain}
use mailroom.Maildir.Paths.{FilePath, user_root}
use mailroom.Store.{Db, User, err, ok}
use mailroom.Store.Settings.{get_relay_settings, set_relay_settings}
use mailroom.Store.Users.{
  Bcrypt, create_user, delete_user, get_user_by_email, get_user_by_id, list_users,
}
use mailroom.Imap.Provision.{Place, provision_mailboxes}
use mailroom.Webmail.Access.{entered, forbidden, require_admin, to_login}
use mailroom.Webmail.Sessions.{SessionStore}

pub record AdminUserRow : Type 0 where
  pub id : ℕ
  pub email : Text
  pub is_admin : Bool

-- No password is shown.
pub record RelayView : Type 0 where
  pub enabled : Bool
  pub host : Text
  pub port : ℕ
  pub username : Text

pub record AdminData : Type 0 where
  pub email : Text
  pub users : List AdminUserRow
  pub relay : RelayView

pub data Notice : Type 0 where
  no_notice created_mailbox relay_saved_enabled relay_saved_disabled : Notice
  fields_required invalid_address domain_not_local exists_already create_failed folders_failed :
      Notice
  mailbox_not_found own_mailbox bad_port relay_incomplete : Notice

pub data Reply : Type 0 where
  to_login_page forbidden_reply bad_form not_found_reply to_admin : Reply
  admin_page : AdminData → Notice → Reply

unfoldable pub build_admin_data : User → Db → AdminData
unfolding list_users get_relay_settings
build_admin_data account db =
    let rs = get_relay_settings db in
    record {
      email = account.email;
      users =
          map (λ u. record { id = u.id; email = u.email; is_admin = u.is_admin }) (list_users db);
      relay = record {
        enabled = rs.enabled;
        host = rs.host;
        port = rs.port;
        username = rs.username;
      };
    }

unfoldable pub handle_admin_page : User → Db → Reply
unfolding build_admin_data
handle_admin_page account db = admin_page (build_admin_data account db) no_notice

pub record NewUser : Type 0 where
  pub email : Text
  pub password : Text
  pub is_admin : Text

-- The default case of handleAdminCreateUser.
unfoldable pub add_mailbox :
    Bcrypt
    → Config
    → (FilePath → Bool)
    → ℕ
    → User
    → Text
    → Text
    → Text
    → Text
    → Bool
    → Place
    → Place × Reply
unfolding get_user_by_email create_user provision_mailboxes build_admin_data
add_mailbox b cfg broken now account email local_part domain password make_admin (db, dirs) =
    let data0 = build_admin_data account db in
    let (db1, answer) = create_user b domain local_part password make_admin db in
    elim (get_user_by_email db email) [
      | ok _ ↦ ((db, dirs), admin_page data0 exists_already)
      | err _ ↦ elim answer [
        | err _ ↦ ((db1, dirs), admin_page data0 create_failed)
        | ok u ↦
            let ((db2, dirs2), done) =
              provision_mailboxes broken now cfg.maildir_path u (db1, dirs) in
            if done
            then ((db2, dirs2), admin_page (build_admin_data account db2) created_mailbox)
            else ((db2, dirs2), admin_page data0 folders_failed)
      ]
    ]

-- handleAdminCreateUser; no form where it cannot be parsed.
unfoldable pub handle_admin_create_user :
    Bcrypt → Config → (FilePath → Bool) → ℕ → User → Option NewUser → Place → Place × Reply
unfolding to_lower trim_space split is_local_domain build_admin_data add_mailbox
handle_admin_create_user b cfg broken now account none s = (s, bad_form)
handle_admin_create_user b cfg broken now account (some form) (db, dirs) =
    let email = to_lower (trim_space form.email) in
    let page = λ (n : Notice). admin_page (build_admin_data account db) n in
    if email == [] || form.password == []
    then ((db, dirs), page fields_required)
    else elim (split email) [
      | none ↦ ((db, dirs), page invalid_address)
      | some (local_part, domain) ↦
          if not (is_local_domain cfg domain)
          then ((db, dirs), page domain_not_local)
          else add_mailbox b cfg broken now account email local_part domain form.password
              (form.is_admin == codes "on") (db, dirs)
    ]

-- The directory that goes with a mailbox.
unfoldable pub root_of : FilePath → Text → FilePath
unfolding split user_root
root_of base email = elim (split email) [
  | none ↦ user_root base [] []
  | some (local_part, domain) ↦ user_root base domain local_part
]

-- handleAdminDeleteUser: the database, the directory that is removed, if any, and the answer; a
-- directory that cannot be removed is logged.
unfoldable pub handle_admin_delete_user :
    FilePath → User → Option ℕ → Db → Db × Option FilePath × Reply
unfolding build_admin_data get_user_by_id delete_user equal_fold root_of
handle_admin_delete_user base account none db = (db, none, not_found_reply)
handle_admin_delete_user base account (some id) db = elim (get_user_by_id db id) [
  | err _ ↦ (db, none, admin_page (build_admin_data account db) mailbox_not_found)
  | ok target ↦
      if equal_fold target.email account.email
      then (db, none, admin_page (build_admin_data account db) own_mailbox)
      else (delete_user id db, some (root_of base target.email), to_admin)
]

-- The request, with requireAdmin around the handler.
unfoldable pub request_delete :
    FilePath
    → ℕ
    → Option Text
    → Option ℕ
    → SessionStore × Db
    → (SessionStore × Db) × Option FilePath × Reply
unfolding handle_admin_delete_user
request_delete base now cookie id (sessions, db) =
    let (sessions1, gate) = require_admin now cookie sessions in
    elim gate [
      | to_login ↦ ((sessions1, db), none, to_login_page)
      | forbidden ↦ ((sessions1, db), none, forbidden_reply)
      | entered account ↦
          let (db1, gone, reply) = handle_admin_delete_user base account id db in
          ((sessions1, db1), gone, reply)
    ]

-- strconv.Atoi, where the number is positive: digits, after "+" or nothing.
unfoldable pub digits_value : ℕ → Text → Option ℕ
digits_value acc [] = some acc
digits_value acc (c ∷ s) =
    let rest = digits_value (acc * 10 + (c - b'0')) s in
    if leb b'0' c && leb c b'9' then rest else none

unfoldable pub atoi : Text → Option ℕ
unfolding digits_value
atoi [] = none
atoi (c ∷ s) =
    if c == b'+' then (if is_nil s then none else digits_value 0 s) else digits_value 0 (c ∷ s)

pub record RelayForm : Type 0 where
  pub relay_enabled : Text
  pub relay_host : Text
  pub relay_port : Text
  pub relay_username : Text
  pub relay_password : Text

-- A blank port is 587.
unfoldable pub port_of : Text → Option ℕ
unfolding atoi
port_of [] = some 587
port_of (c ∷ p) = elim (atoi (c ∷ p)) [
  | none ↦ none
  | some n ↦ if ltb 0 n && ltb n 65536 then some n else none
]

-- The page of a form that is refused shows what was entered.
abbrev entered_relay : AdminData → Bool → Text → ℕ → Text → AdminData
entered_relay d enabled host port username = record d {
  relay = record { enabled = enabled; host = host; port = port; username = username };
}

unfoldable pub handle_admin_relay_settings : User → Option RelayForm → Db → Db × Reply
unfolding build_admin_data trim_space port_of set_relay_settings
handle_admin_relay_settings account none db = (db, bad_form)
handle_admin_relay_settings account (some form) db =
    let data0 = build_admin_data account db in
    let enabled = form.relay_enabled == codes "on" in
    let host = trim_space form.relay_host in
    let username = trim_space form.relay_username in
    elim (port_of (trim_space form.relay_port)) [
      | none ↦ (db, admin_page (entered_relay data0 enabled host 587 username) bad_port)
      | some port ↦
          let db1 =
            set_relay_settings
              (record {
                enabled = enabled;
                host = host;
                port = port;
                username = username;
                password = form.relay_password;
              })
              db in
          if enabled && (host == [] || username == [])
          then (db, admin_page (entered_relay data0 enabled host port username) relay_incomplete)
          else (
            db1,
            admin_page (build_admin_data account db1)
                (if enabled then relay_saved_enabled else relay_saved_disabled),
          )
    ]
