-- ===== src/Store/Settings/Laws.antt =====
-- internal/store/forwarding.go and internal/store/relay_settings.go: what is read is what was saved.
use mailroom.Prelude.{
  Bool, List, Text, [], arith, find_first, if◌then◌else◌, nat_eq, refl, some, text_eq, ℕ, ◌==◌, ◌∷◌,
  ◌≡◌,
}
use mailroom.Store.{Db, Forwarding, RelaySettings}
use mailroom.Store.Settings.{
  get_forwarding, get_relay_settings, set_forwarding, set_relay_settings, upsert,
}

find-upsert :
    (f : Forwarding) (other : ℕ) (fs : List Forwarding)
    → find_first (λ g. g.user_id == other) (upsert f fs)
      ≡ (if f.user_id == other then some f else find_first (λ g. g.user_id == other) fs)
unfolding find_first upsert
find-upsert f other [] = refl
find-upsert f other (g ∷ fs) = ground (arith, find-upsert f other fs)

-- After a user's rule is saved, that rule is read, and every other user's rule is the one before.
pub get-set_forwarding :
    (user_id other : ℕ) (enabled : Bool) (forward_to : Text) (db : Db)
    → get_forwarding other (set_forwarding user_id enabled forward_to db) ≡ (
        if user_id == other
        then record { user_id = user_id; enabled = enabled; forward_to = forward_to }
        else get_forwarding other db)
unfolding get_forwarding set_forwarding
get-set_forwarding user_id other enabled forward_to db =
    rw
      (
        find-upsert (record { user_id = user_id; enabled = enabled; forward_to = forward_to }) other
            db.forwarding,
        get_forwarding,
      )
      (ground arith)

-- Saving the relay settings keeps all that was given, but where the password was left empty the
-- stored password stays; saving again with an empty password changes nothing.
get-set_relay_settings :
    (rs : RelaySettings) (db : Db)
    → (get_relay_settings (set_relay_settings rs db) ≡ record rs {
      password = if rs.password == [] then (get_relay_settings db).password else rs.password;
    })
      × (set_relay_settings (record rs { password = [] }) (set_relay_settings rs db)
          ≡ set_relay_settings rs db)
unfolding get_relay_settings set_relay_settings
get-set_relay_settings rs db = (refl, refl)
