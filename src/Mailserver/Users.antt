-- ===== src/Mailserver/Users.antt =====
-- cmd/mailserver/main.go: what a created mailbox has.
use mailroom.Prelude.{
  All, Bool, Bool-cases, Option-cases, Text, ap, codes, false, find_first, inl, inr, is_nil, nat_eq,
  refl, same_refl, some, sym, subst, text_eq, to_lower, to_lower-append, to_lower_code, true, ℕ,
  ◌++◌, ◌==◌, ◌||◌, ◌∷◌, ◌≡◌, ◌∙◌,
}
use mailroom.Address.{split}
use mailroom.Address.Laws.{split_sound}
use mailroom.Config.{Config}
use mailroom.Imap.Provision.{Place, provision_folders, provision_mailboxes}
use mailroom.Imap.Provision.Complete.{HasFolder, provision_folders-All}
use mailroom.Mailsend.{is_local_domain}
use mailroom.Mailserver.{add_user, created, mail_config, user_create, with_folders}
use mailroom.Maildir.Paths.{FilePath, default_folders, user_root}
use mailroom.Store.{Db, Result-cases, User, ok}
use mailroom.Store.Users.{
  Bcrypt, IsBcrypt, create_user, get_user_by_email, or_not_found, verify_password,
}
use mailroom.Store.Users.Directory.{address, create_user-ok}

lower_address :
    (local_part domain : Text) → to_lower (local_part ++ b'@' ∷ domain) ≡ address local_part domain
unfolding to_lower to_lower_code
lower_address local_part domain = to_lower-append local_part (b'@' ∷ domain)

module _ (b : Bcrypt) (broken : FilePath → Bool) (now : ℕ) (base : FilePath) where
  -- What the new user has in the end: the address, as it was typed or in lower case, its password,
  -- and a row and a directory for INBOX and for each default folder.
  abbrev pub IsSetUp : Text → Text → User → Place → Type 0
  IsSetUp typed password u s =
      (u.email ≡ to_lower typed)
      × (get_user_by_email s.0 typed ≡ ok u)
      × (verify_password b u password ≡ true)
      × ((name : Text × Text) × (split u.email ≡ some name)
          × All (HasFolder u.id (user_root base name.1 name.0) s) (codes "INBOX" ∷ default_folders))

  provisioned :
      (u : User) (s s1 : Place)
      → provision_mailboxes broken now base u s ≡ (s1, true)
      → (s1.0.users ≡ s.0.users)
        × ((name : Text × Text) × (split u.email ≡ some name)
            × All
                (HasFolder u.id (user_root base name.1 name.0) s1)
                (codes "INBOX" ∷ default_folders))
  unfolding provision_mailboxes
  provisioned u s s1 e = elim (Option-cases (split u.email)) [
    | inl no_address ↦ absurd (cc (rw (provision_mailboxes, no_address) at e))
    | inr (name, parts) ↦
        let root = user_root base name.1 name.0 in
        let ran : provision_folders broken now base root u.id (codes "INBOX" ∷ default_folders) s
            ≡ (s1, true) =
          rw (provision_mailboxes, parts) at e in
        let (users, folders) =
          provision_folders-All broken now base root u.id (codes "INBOX" ∷ default_folders) s
            (ap (λ r. r.1) ran) in
        let there : (provision_folders broken now base root u.id (codes "INBOX" ∷ default_folders)
              s).0
            ≡ s1 =
          ap (λ r. r.0) ran in
        (
          sym (ap (λ r. r.0.users) there) ∙ users,
          (
            name,
            parts,
            subst (λ t. All (HasFolder u.id root t) (codes "INBOX" ∷ default_folders)) there
                folders,
          ),
        )
  ]

  same_users :
      (db db1 : Db) (email : Text)
      → db1.users ≡ db.users
      → get_user_by_email db1 email ≡ get_user_by_email db email
  unfolding get_user_by_email
  same_users db db1 email e =
      ap (λ us. or_not_found (find_first (λ u. u.email == to_lower email) us)) e

  add_user-IsSetUp :
      (domain local_part typed password : Text) (is_admin : Bool) (s s1 : Place) (u : User)
      → IsBcrypt b
      → to_lower typed ≡ address local_part domain
      → add_user b broken now base domain local_part password is_admin s ≡ (s1, created u)
      → IsSetUp typed password u s1
  unfolding add_user
  add_user-IsSetUp domain local_part typed password is_admin (db, dirs) s1 u v t e =
      elim (Result-cases (create_user b domain local_part password is_admin db).1) [
        | inl (x, bad) ↦ absurd (cc (rw (add_user, bad) at e))
        | inr (u1, good) ↦
            go u1 good (provision_mailboxes broken now base u1 (db2, dirs)) refl
              (rw (add_user, good) at e)
      ]
    where
      db2 : Db
      db2 = (create_user b domain local_part password is_admin db).0

      go :
          (u1 : User)
          → (create_user b domain local_part password is_admin db).1 ≡ ok u1
          → (r : Place × Bool) → provision_mailboxes broken now base u1 (db2, dirs) ≡ r
          → with_folders b broken now base u1 r ≡ (s1, created u)
          → IsSetUp typed password u s1
      go u1 good (s2, false) q g = absurd (cc g)
      go u1 good (s2, true) q g =
          let it : u1 ≡ u = cc g in
          let there : s2 ≡ s1 = ap (λ r. r.0) g in
          let (named, verified, found) =
            create_user-ok b domain local_part password is_admin db u1 typed v good in
          let (users, folders) = provisioned u1 (db2, dirs) s2 q in
          let same : (u1.email == to_lower typed) ≡ true =
            rw (named, t) (same_refl (address local_part domain)) in
          subst (λ x. IsSetUp typed password x s1) it
            (subst (λ x. IsSetUp typed password u1 x) there
              (
                named ∙ sym t,
                same_users db2 s2.0 typed users ∙ rw (same) at found,
                verified,
                folders,
              ))

  -- What `mailserver user create` reports as created is a mailbox that works, where bcrypt accepts the
  -- passwords that it hashed: the user is found under the address as it was typed, has it in lower
  -- case, its password verifies, and INBOX and every default folder has its row in the store and its
  -- directory below the user's own.
  pub user_create-IsSetUp :
      (c : Config) (email password : Text) (is_admin : Bool) (s s1 : Place) (u : User)
      → IsBcrypt b
      → user_create b broken now base c email password is_admin s ≡ (s1, created u)
      → IsSetUp email password u s1
  unfolding user_create
  user_create-IsSetUp c email password is_admin s s1 u v e =
      elim (Bool-cases (is_nil email || is_nil password)) [
        | inl missing ↦ absurd (cc (rw (user_create, missing) at e))
        | inr given ↦ elim (Option-cases (split email)) [
          | inl wrong ↦ absurd (cc (rw (user_create, given, wrong) at e))
          | inr ((local_part, domain), parts) ↦
              elim (Bool-cases (is_local_domain (mail_config base c) domain)) [
                | inr foreign ↦ absurd (cc (rw (user_create, given, parts, foreign) at e))
                | inl mine ↦
                    add_user-IsSetUp domain local_part email password is_admin s s1 u v
                      (lowered email local_part domain
                        (split_sound email local_part domain parts).0)
                      (rw (user_create, given, parts, mine) at e)
              ]
        ]
      ]
    where
      lowered :
          (email local_part domain : Text)
          → email ≡ local_part ++ b'@' ∷ domain
          → to_lower email ≡ address local_part domain
      lowered email local_part domain e = ap to_lower e ∙ lower_address local_part domain
