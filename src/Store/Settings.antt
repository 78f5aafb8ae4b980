-- ===== src/Store/Settings.antt =====
-- internal/store/forwarding.go and internal/store/relay_settings.go.
pub mod Laws
use mailroom.Prelude.{
  Bool, List, Text, [], false, find_first, if◌then◌else◌, nat_eq, none, some, text_eq, ℕ, ◌==◌, ◌∷◌,
}
use mailroom.Store.{Db, Forwarding, RelaySettings}

-- GetForwarding; a user with no row has a disabled rule.
unfoldable pub get_forwarding : ℕ → Db → Forwarding
unfolding find_first
get_forwarding user_id db = elim (find_first (λ f. f.user_id == user_id) db.forwarding) [
  | some f ↦ f
  | none ↦ record { user_id = user_id; enabled = false; forward_to = [] }
]

-- INSERT ... ON CONFLICT (user_id) DO UPDATE
upsert : Forwarding → List Forwarding → List Forwarding
upsert f [] = f ∷ []
upsert f (g ∷ gs) = if g.user_id == f.user_id then f ∷ gs else g ∷ upsert f gs

unfoldable pub set_forwarding : ℕ → Bool → Text → Db → Db
unfolding upsert
set_forwarding user_id enabled forward_to db = record db {
  forwarding =
      upsert (record { user_id = user_id; enabled = enabled; forward_to = forward_to })
        db.forwarding;
}

unfoldable pub get_relay_settings : Db → RelaySettings
get_relay_settings db = elim db.relay_settings [
  | some rs ↦ rs
  | none ↦ record { enabled = false; host = []; port = 587; username = []; password = [] }
]

-- SetRelaySettings; an empty password keeps the stored one.
unfoldable pub set_relay_settings : RelaySettings → Db → Db
unfolding get_relay_settings
set_relay_settings rs db =
    let password = if rs.password == [] then (get_relay_settings db).password else rs.password in
    record db { relay_settings = some (record rs { password = password }) }
