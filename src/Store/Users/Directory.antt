-- ===== src/Store/Users/Directory.antt =====
-- internal/store/store.go: what `CreateUser` puts into the directory.
use mailroom.Prelude.{
  Bool, Bool-cases, List, Option-cases, Text, [], any, ap, arith, false, find_first,
  find_first-append, find_first-append_ne, if◌then◌else◌, inl, inr, nat_eq, refl, subst,
  text_beq_iff, text_eq, to_lower, true, ℕ, ◌++◌, ◌==◌, ◌∙◌, ◌∷◌, ◌≡◌, ◌⊎◌,
}
use mailroom.Store.{Db, Result, User, constraint, err, hashing, ok}
use mailroom.Store.Users.{
  Bcrypt, IsBcrypt, clashes, create_user, ensure_domain, get_user_by_email, or_not_found,
  verify_password,
}

-- The address that a local part and a domain give.
abbrev pub address : Text → Text → Text
address local_part domain_name = to_lower local_part ++ b'@' ∷ to_lower domain_name

users-ensure_domain : (name : Text) (db : Db) → (ensure_domain name db).0.users ≡ db.users
unfolding ensure_domain
users-ensure_domain name db = ground arith

-- Where no user clashes, none has the address.
no_clash-email :
    (domain_id : ℕ) (local_part email : Text) (us : List User)
    → any (clashes domain_id local_part email) us ≡ false
    → any (λ u. u.email == email) us ≡ false
unfolding any clashes
no_clash-email domain_id local_part email [] h = refl
no_clash-email domain_id local_part email (u ∷ us) h =
    ground (arith, h, no_clash-email domain_id local_part email us)

-- A new user at the end of the table is found under its address, and hides no other.
lookup-added :
    (us : List User) (u : User) (email : Text)
    → any (λ w. w.email == u.email) us ≡ false
    → or_not_found (find_first (λ w. w.email == email) (us ++ u ∷ []))
      ≡ (if u.email == email then ok u else or_not_found (find_first (λ w. w.email == email) us))
unfolding or_not_found
lookup-added us u email new = elim (Bool-cases (u.email == email)) [
  | inl same ↦
      let e : u.email ≡ email = (text_beq_iff u.email email).0 same in
      let absent : any (λ w. w.email == email) us ≡ false =
        subst (λ a. any (λ w. w.email == a) us ≡ false) e new in
      rw (same, find_first-append (λ w. w.email == email) us u absent) (ground (arith, same))
  | inr other ↦ rw (other, find_first-append_ne (λ w. w.email == email) us u other)
]

module _ (b : Bcrypt) (domain_name local_part password : Text) (is_admin : Bool) (db : Db) where
  abbrev pub created : Db × Result User
  created = create_user b domain_name local_part password is_admin db

  -- Where `CreateUser` answers a user, that user has the lowered address and is found under the
  -- address in any case; the password that was given verifies; and every other address is looked up
  -- as before. bcrypt accepts the passwords that it hashed.
  pub create_user-ok :
      (u : User) (email : Text)
      → IsBcrypt b
      → created.1 ≡ ok u
      → (u.email ≡ address local_part domain_name)
        × (verify_password b u password ≡ true)
        × (get_user_by_email created.0 email
            ≡ (if u.email == to_lower email then ok u else get_user_by_email db email))
  unfolding create_user verify_password get_user_by_email
  create_user-ok u email v h =
      let dom = ensure_domain (to_lower domain_name) db in
      let same = users-ensure_domain (to_lower domain_name) db in
      elim (Option-cases (b.hash password)) [
        | inl e ↦ cc (rw (e, create_user) at h)
        | inr (hash, e) ↦
            elim (Bool-cases (
              any (clashes dom.1.id (to_lower local_part) (address local_part domain_name))
                dom.0.users)) [
                  | inl clash ↦ cc (rw (e, clash, create_user) at h)
                  | inr free ↦
                      let u' : User = record {
                        id = dom.0.next_user;
                        domain_id = dom.1.id;
                        local_part = to_lower local_part;
                        email = address local_part domain_name;
                        password_hash = hash;
                        is_admin = is_admin;
                      } in
                      let found = lookup-added dom.0.users u' (to_lower email) (
                        no_clash-email dom.1.id (to_lower local_part)
                          (address local_part domain_name) dom.0.users free) in
                      let known : u' ≡ u = cc (rw (e, free, create_user) at h) in
                      subst
                        (λ w.
                          (w.email ≡ address local_part domain_name)
                          × (verify_password b w password ≡ true)
                          × (get_user_by_email created.0 email ≡ (
                              if w.email == to_lower email
                              then ok w
                              else get_user_by_email db email)))
                        known
                        (
                          refl,
                          v.hash_matches password hash e,
                          rw (e, free, create_user)
                              (found
                                ∙ ap
                                    (λ (us : List User).
                                      if u'.email == to_lower email
                                      then ok u'
                                      else or_not_found
                                          (find_first (λ w. w.email == to_lower email) us))
                                    same),
                        )
                ]
      ]

  -- An address that is in use, in whatever case, is refused, and no user is added or changed.
  create_user-taken :
      any (λ u. u.email == address local_part domain_name) db.users ≡ true
      → (created.0.users ≡ db.users) × ((created.1 ≡ err constraint) ⊎ (created.1 ≡ err hashing))
  unfolding create_user
  create_user-taken old =
      let dom = ensure_domain (to_lower domain_name) db in
      let same = users-ensure_domain (to_lower domain_name) db in
      elim (Option-cases (b.hash password)) [
        | inl e ↦ rw (e, create_user) (same, inr refl)
        | inr (hash, e) ↦
            elim (Bool-cases (
              any (clashes dom.1.id (to_lower local_part) (address local_part domain_name))
                dom.0.users)) [
                  | inl clash ↦ rw (e, clash, create_user) (same, inl refl)
                  | inr free ↦
                      let none_has =
                        no_clash-email dom.1.id (to_lower local_part)
                          (address local_part domain_name) dom.0.users free in
                      cc (old, rw same at none_has)
                ]
      ]
