-- ===== src/Webmail/Admin/RelayForms.antt =====
-- internal/webmail/admin_handlers.go: what the form of the relay may store.
use mailroom.Prelude.{
  Bool-cases, Option, Option-cases, refl, ◌⊎◌, Text, [], arith, codes, if◌then◌else◌, inl, inr, ltb,
  nat_eq, none, some, text_beq_iff, text_eq, trim_space, true, ℕ, ◌&&◌, ◌<◌, ◌==◌, ◌||◌, ◌∷◌, ◌≡◌,
  ◌≢◌, ◌≤◌,
}
use mailroom.Store.{Db, RelaySettings, User}
use mailroom.Store.Settings.{get_relay_settings, set_relay_settings}
use mailroom.Webmail.Admin.{RelayForm, atoi, handle_admin_relay_settings, port_of}

-- The port is one of TCP, and an enabled relay has a host and a user name. The password is not asked
-- for.
pub record IsUsable (rs : RelaySettings) : Type 0 where
  pub from_one : 1 ≤ rs.port
  pub in_word : rs.port < 65536
  pub host_set : rs.enabled ≡ true → rs.host ≢ []
  pub username_set : rs.enabled ≡ true → rs.username ≢ []

port_of-bounds : (p : Text) (n : ℕ) → port_of p ≡ some n → (1 ≤ n) × (n < 65536)
unfolding port_of
port_of-bounds [] n e = let same : 587 ≡ n = cc (e) in (omega (arith, same), omega (arith, same))
port_of-bounds (c ∷ p) n e = elim (Option-cases (atoi (c ∷ p))) [
  | inl bad ↦ cc (rw (port_of, bad) at e)
  | inr (m, good) ↦
      let range : (if ltb 0 m && ltb m 65536 then some m else none) ≡ some n =
        rw (port_of, good) at e in
      elim (Bool-cases (ltb 0 m && ltb m 65536)) [
        | inl fits ↦ let same : m ≡ n = cc (rw (fits) at range) in ground (arith, fits, same)
        | inr large ↦ cc (rw (large) at range)
      ]
]

-- The password of the form, or the one before where the form has none.
abbrev pub next_password : Option RelayForm → Text → Text
next_password none before = before
next_password (some form) before = if form.relay_password == [] then before else form.relay_password

-- Whatever the form holds, stored settings whose port is one of TCP and that have a host and a user
-- name where they are enabled are followed by such settings. Where anything is saved, the password is
-- the form's, or the one before where the form has none; an enabled relay may have no password.
pub handle_admin_relay_settings-IsUsable :
    (account : User) (form : Option RelayForm) (db : Db)
    → IsUsable (get_relay_settings db)
    → let after = get_relay_settings (handle_admin_relay_settings account form db).0 in
      IsUsable after
      × ((after ≡ get_relay_settings db)
          ⊎ (after.password ≡ next_password form (get_relay_settings db).password))
unfolding handle_admin_relay_settings get_relay_settings set_relay_settings
handle_admin_relay_settings-IsUsable account none db v = (v, inl refl)
handle_admin_relay_settings-IsUsable account (some form) db v =
    let host = trim_space form.relay_host in
    let username = trim_space form.relay_username in
    let enabled = form.relay_enabled == codes "on" in
    elim (Option-cases (port_of (trim_space form.relay_port))) [
      | inl bad ↦ rw (handle_admin_relay_settings, bad) (v, inl refl)
      | inr (port, good) ↦ elim (Bool-cases (enabled && (host == [] || username == []))) [
        | inl short ↦ rw (handle_admin_relay_settings, good, short) (v, inl refl)
        | inr full ↦
            let (low, high) = port_of-bounds (trim_space form.relay_port) port good in
            rw (handle_admin_relay_settings, good, full)
              (
                record {
                  from_one = low;
                  in_word = high;
                  host_set = λ on. ground (arith, full, on, text_beq_iff host []);
                  username_set = λ on. ground (arith, full, on, text_beq_iff username []);
                },
                inr refl,
              )
      ]
    ]
