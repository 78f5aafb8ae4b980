-- ===== src/Imap/Accounts/Readmission.antt =====
-- internal/imapbackend/webapi.go: the table of users against the database.
use mailroom.Prelude.{
  Text, ap, false, lookup, nat_eq, refl, same_refl, some, text_eq, to_lower, to_lower-append,
  to_lower_code, to_lower_idem, trim_space, true, ◌∙◌, ◌∷◌, ◌≡◌,
}
use mailroom.Store.{Db, User, ok}
use mailroom.Store.Users.{Bcrypt, IsBcrypt, delete_user, get_user_by_email, verify_password}
use mailroom.Store.Users.Directory.{address, create_user-ok, created}
use mailroom.Imap.Accounts.{Users, authenticate, user_for, verified}

to_lower-address :
    (local_part domain_name : Text)
    → to_lower (address local_part domain_name) ≡ address local_part domain_name
unfolding to_lower to_lower_code
to_lower-address local_part domain_name =
    rw
      (
        to_lower-append (to_lower local_part) (b'@' ∷ to_lower domain_name),
        to_lower_idem local_part,
        to_lower_idem domain_name,
      )
      refl

verified_lem :
    (b : Bcrypt) (email password : Text) (db : Db) (u : User)
    → get_user_by_email db email ≡ ok u
    → verify_password b u password ≡ true
    → verified b email password db ≡ some u
unfolding verified
verified_lem b email password db u e right = rw (verified, e, right) refl

user_for-cached :
    (u old : User) (users : Users)
    → lookup (to_lower u.email) users ≡ some old
    → user_for u users ≡ (users, old)
unfolding user_for
user_for-cached u old users e = rw (user_for, e) refl

-- An account outlives its user: where a user whose row is in the table is deleted, and a user without
-- admin rights is created under the same address, the new password opens the account of the deleted
-- user, with its identifier and its rights.
pub readmitted :
    (b : Bcrypt) (old u : User) (domain_name local_part password email : Text) (db : Db)
    (users : Users)
    → IsBcrypt b
    → lookup (address local_part domain_name) users ≡ some old
    → (created b domain_name local_part password false (delete_user old.id db)).1 ≡ ok u
    → to_lower (trim_space email) ≡ address local_part domain_name
    → authenticate b email password
        (created b domain_name local_part password false (delete_user old.id db)).0
        users
      ≡ (users, some old)
unfolding authenticate
readmitted b old u domain_name local_part password email db users v cached new same =
    let db1 = (created b domain_name local_part password false (delete_user old.id db)).0 in
    let (address_is, accepted, seen) =
      create_user-ok b domain_name local_part password false (delete_user old.id db) u
        (address local_part domain_name) v new in
    let low = to_lower-address local_part domain_name in
    let found_one : get_user_by_email db1 (address local_part domain_name) ≡ ok u =
      seen ∙ rw (low, address_is, same_refl (address local_part domain_name)) refl in
    let known : verified b (to_lower (trim_space email)) password db1 ≡ some u =
      ap (λ e. verified b e password db1) same
      ∙ verified_lem b (address local_part domain_name) password db1 u found_one accepted in
    let kept : user_for u users ≡ (users, old) =
      user_for-cached u old users
        (ap (λ e. lookup e users) (ap to_lower address_is ∙ low) ∙ cached) in
    rw (authenticate, known, kept) refl
