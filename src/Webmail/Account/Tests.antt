-- ===== src/Webmail/Account/Tests.antt =====
-- Runs of internal/webmail/account_handlers.go: a rule that is switched on.
use mailroom.Prelude.{
  Bool, Text, any, codes, arith, nat_eq, text_eq, find_first, ◌==◌, [], false, ◌≡◌,
}
use mailroom.Store.{User, empty_db}
use mailroom.Store.Settings.{get_forwarding}
use mailroom.Webmail.Account.{ForwardingForm, handle_account_forwarding}
use mailroom.Webmail.Account.Forwarding.{IsForwardable, handle_account_forwarding-IsForwardable}

abbrev alice : User
alice = record {
  id = 1;
  domain_id = 1;
  local_part = codes "alice";
  email = codes "alice@a.org";
  password_hash = [];
  is_admin = false;
}

-- A stand-in for net/mail.
abbrev has_at : Text → Bool
has_at s = any (λ c. c == b'@') s

abbrev form : ForwardingForm
form = record { forwarding_enabled = codes "on"; forward_to = codes " Bob@b.org" }

handle_account_forwarding-IsForwardable_example :
    IsForwardable has_at
      (codes "alice@a.org")
      (get_forwarding 1 (handle_account_forwarding has_at alice form empty_db).0)
    × (get_forwarding 2 (handle_account_forwarding has_at alice form empty_db).0
        ≡ get_forwarding 2 empty_db)
unfolding get_forwarding find_first
handle_account_forwarding-IsForwardable_example =
    handle_account_forwarding-IsForwardable has_at alice form empty_db 2 (λ e. omega (arith, e))
      (record { address = λ e. cc (e); valid = λ e. cc (e); foreign = λ e. cc (e) })
