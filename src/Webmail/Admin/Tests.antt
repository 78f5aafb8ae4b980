-- ===== src/Webmail/Admin/Tests.antt =====
-- Runs of internal/webmail/admin_handlers.go: two admins, both logged in.
use mailroom.Prelude.{
  Option, ◌⊎◌, [], any, arith, codes, equal_fold, false, inl, inr, nat_eq, refl, some, text_eq,
  to_lower, true, ◌∷◌, ◌≡◌,
}
use mailroom.Store.{Db, User, empty_db}
use mailroom.Store.Settings.{get_relay_settings}
use mailroom.Store.Users.{get_user_by_id}
use mailroom.Maildir.Paths.{FilePath}
use mailroom.Webmail.Admin.{RelayForm, handle_admin_relay_settings, request_delete}
use mailroom.Webmail.Admin.Deletion.{no_admin_left}
use mailroom.Webmail.Admin.RelayForms.{
  IsUsable, next_password, handle_admin_relay_settings-IsUsable,
}
use mailroom.Webmail.Sessions.{SessionStore, get}

abbrev alice : User
alice = record {
  id = 1;
  domain_id = 1;
  local_part = codes "alice";
  email = codes "alice@a.org";
  password_hash = [];
  is_admin = true;
}

abbrev bob : User
bob = record alice { id = 2; local_part = codes "bob"; email = codes "bob@a.org" }

abbrev two_admins : Db
two_admins = record empty_db { users = alice ∷ bob ∷ []; next_user = 3 }

abbrev base : FilePath
base = record { rooted = true; segments = codes "mail" ∷ [] }

abbrev both_in : SessionStore
both_in =
    (codes "ta", record { account = alice; expires = 100 })
    ∷ (codes "tb", record { account = bob; expires = 100 })
    ∷ []

no_admin_left_example :
    any
      (λ (u : User). u.is_admin)
      (request_delete base 20
        (some (codes "tb"))
        (some 1)
        (request_delete base 10 (some (codes "ta")) (some 2) (both_in, two_admins)).0).0.1.users
    ≡ false
unfolding get get_user_by_id equal_fold to_lower
no_admin_left_example =
    no_admin_left base 10 20 (codes "ta") (codes "tb") alice bob both_in two_admins refl refl refl
      refl refl refl (λ e. omega arith) refl ((λ e. inl refl), ((λ e. inr refl), tt))

abbrev relay_form : Option RelayForm
relay_form = some (record {
  relay_enabled = codes "on";
  relay_host = codes "smtp.b.org";
  relay_port = codes "2525";
  relay_username = codes "u";
  relay_password = [];
})

handle_admin_relay_settings-IsUsable_example :
    let after = get_relay_settings (handle_admin_relay_settings alice relay_form two_admins).0 in
    IsUsable after
    × ((after ≡ get_relay_settings two_admins)
        ⊎ (after.password ≡ next_password relay_form (get_relay_settings two_admins).password))
unfolding get_relay_settings
handle_admin_relay_settings-IsUsable_example =
    handle_admin_relay_settings-IsUsable alice relay_form two_admins (record {
      from_one = omega arith;
      in_word = omega arith;
      host_set = λ e. cc (e);
      username_set = λ e. cc (e);
    })
