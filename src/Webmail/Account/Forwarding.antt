-- ===== src/Webmail/Account/Forwarding.antt =====
-- internal/webmail/account_handlers.go: what rules a user can store.
use mailroom.Prelude.{
  Bool, Bool-cases, Text, arith, codes, inl, inr, is_nil, false, true, nat_beq_iff, nat_eq, not,
  refl, subst, sym, text_eq, to_lower, trim_space, ℕ, ◌&&◌, ◌==◌, ◌∙◌, ◌≡◌, ◌≢◌,
}
use mailroom.Store.{Db, Forwarding as Rule, User}
use mailroom.Store.Settings.{get_forwarding, set_forwarding}
use mailroom.Store.Settings.Laws.{get-set_forwarding}
use mailroom.Webmail.Account.{ForwardingForm, handle_account_forwarding}

-- An enabled rule has a valid address, which is not the user's own.
pub record IsForwardable (is_valid : Text → Bool) (own : Text) (rule : Rule) : Type 0 where
  pub address : rule.enabled ≡ true → is_nil rule.forward_to ≡ false
  pub valid : rule.enabled ≡ true → is_valid rule.forward_to ≡ true
  pub foreign : rule.enabled ≡ true → (rule.forward_to == to_lower own) ≡ false

rule_saved :
    (user_id other : ℕ) (enabled : Bool) (forward_to : Text) (db : Db)
    → other ≢ user_id
    → (get_forwarding user_id (set_forwarding user_id enabled forward_to db)
        ≡ record { user_id = user_id; enabled = enabled; forward_to = forward_to })
      × (get_forwarding other (set_forwarding user_id enabled forward_to db)
          ≡ get_forwarding other db)
rule_saved user_id other enabled forward_to db ne = (
  get-set_forwarding user_id user_id enabled forward_to db
      ∙ rw ((nat_beq_iff user_id user_id).1 refl) refl,
  get-set_forwarding user_id other enabled forward_to db ∙ elim (Bool-cases (user_id == other)) [
    | inl same ↦ absurd (ne (sym ((nat_beq_iff user_id other).0 same)))
    | inr apart ↦ rw (apart) refl
  ],
)

-- Whatever the form holds, the user's enabled rule has a valid address other than the user's own, as
-- it had before, and no other user's rule changes.
pub handle_account_forwarding-IsForwardable :
    (is_valid : Text → Bool) (account : User) (form : ForwardingForm) (db : Db) (other : ℕ)
    → other ≢ account.id
    → IsForwardable is_valid account.email (get_forwarding account.id db)
    → let db1 = (handle_account_forwarding is_valid account form db).0 in
      IsForwardable is_valid account.email (get_forwarding account.id db1)
      × (get_forwarding other db1 ≡ get_forwarding other db)
unfolding handle_account_forwarding
handle_account_forwarding-IsForwardable is_valid account form db other ne v =
    let enabled = form.forwarding_enabled == codes "on" in
    let to = to_lower (trim_space form.forward_to) in
    elim (Bool-cases (enabled && is_nil to)) [
      | inl short ↦ rw (handle_account_forwarding, short) (v, refl)
      | inr given ↦ elim (Bool-cases (enabled && not (is_valid to))) [
        | inl wrong ↦ rw (handle_account_forwarding, given, wrong) (v, refl)
        | inr right ↦ elim (Bool-cases (enabled && to == to_lower account.email)) [
          | inl own ↦ rw (handle_account_forwarding, given, right, own) (v, refl)
          | inr foreign ↦
              let (new, same) = rule_saved account.id other enabled to db ne in
              rw (handle_account_forwarding, given, right, foreign)
                (
                  subst (IsForwardable is_valid account.email) (sym new) (record {
                    address = λ on. ground (arith, on, given);
                    valid = λ on. ground (arith, on, right);
                    foreign = λ on. ground (arith, on, foreign);
                  }),
                  same,
                )
        ]
      ]
    ]
