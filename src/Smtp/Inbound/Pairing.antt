-- ===== src/Smtp/Inbound/Pairing.antt =====
-- internal/smtpserver/inbound.go: what a transaction on port 25 accepts as recipients.
use mailroom.Address.{split}
use mailroom.Prelude.{
  Bool-cases, List, Option-cases, Text, [], inl, inr, nat_eq, text_eq, to_lower, trim_space, true,
  ◌++◌, ◌∷◌, ◌≡◌,
}
use mailroom.Store.{Db, Result-cases, User, ok}
use mailroom.Store.Users.{get_user_by_email}
use mailroom.Mailsend.{Config, is_local_domain}
use mailroom.Smtp.Inbound.{Session, mail, parts, rcpt}

-- Each recipient stands beside the user that has its address, in a local domain.
abbrev pub Paired : Config → Db → List Text → List User → Type 0
Paired cfg db [] [] = Unit
Paired cfg db [] (u ∷ us) = ⊥
Paired cfg db (r ∷ rs) [] = ⊥
Paired cfg db (r ∷ rs) (u ∷ us) =
    (get_user_by_email db r ≡ ok u) × (is_local_domain cfg (parts r).1 ≡ true) × Paired cfg db rs us

Paired-snoc :
    (cfg : Config) (db : Db) (rs : List Text) (us : List User) (r : Text) (u : User)
    → Paired cfg db rs us
    → get_user_by_email db r ≡ ok u
    → is_local_domain cfg (parts r).1 ≡ true
    → Paired cfg db (rs ++ r ∷ []) (us ++ u ∷ [])
Paired-snoc cfg db [] [] r u p found here = (found, here, tt)
Paired-snoc cfg db [] (w ∷ us) r u p found here = elim p [ ]
Paired-snoc cfg db (x ∷ rs) [] r u p found here = elim p [ ]
Paired-snoc cfg db (x ∷ rs) (w ∷ us) r u (e, l, p) found here =
    (e, l, Paired-snoc cfg db rs us r u p found here)

rcpt-Paired :
    (cfg : Config) (db : Db) (to : Text) (s : Session)
    → Paired cfg db s.rcpts s.rcpt_users
    → Paired cfg db (rcpt cfg db to s).0.rcpts (rcpt cfg db to s).0.rcpt_users
unfolding rcpt parts
rcpt-Paired cfg db to s p = elim (Option-cases (split (to_lower (trim_space to)))) [
  | inl bad ↦ rw (rcpt, bad) p
  | inr ((local_part, domain), good) ↦ elim (Bool-cases (is_local_domain cfg domain)) [
    | inl here ↦ elim (Result-cases (get_user_by_email db (to_lower (trim_space to)))) [
      | inl (e, unknown) ↦ rw (rcpt, good, here, unknown) p
      | inr (u, found) ↦
          rw (rcpt, good, here, found)
            (Paired-snoc cfg db s.rcpts s.rcpt_users (to_lower (trim_space to)) u p found
              (rw (parts, good) here))
    ]
    | inr elsewhere ↦ rw (rcpt, good, elsewhere) p
  ]
]

-- MAIL and the RCPT commands after it.
abbrev pub rcpts : Config → Db → List Text → Session → Session
rcpts cfg db [] s = s
rcpts cfg db (to ∷ tos) s = rcpts cfg db tos (rcpt cfg db to s).0

rcpts-Paired :
    (cfg : Config) (db : Db) (tos : List Text) (s : Session)
    → Paired cfg db s.rcpts s.rcpt_users
    → Paired cfg db (rcpts cfg db tos s).rcpts (rcpts cfg db tos s).rcpt_users
rcpts-Paired cfg db [] s p = p
rcpts-Paired cfg db (to ∷ tos) s p =
    rcpts-Paired cfg db tos (rcpt cfg db to s).0 (rcpt-Paired cfg db to s p)

-- After MAIL and any RCPT commands, whatever the session held before, every recipient is a local
-- address, and the user beside it is the one that has the address.
pub mail-rcpts :
    (cfg : Config) (db : Db) (from : Text) (tos : List Text) (s : Session)
    → Paired cfg db
        (rcpts cfg db tos (mail from s)).rcpts
        (rcpts cfg db tos (mail from s)).rcpt_users
unfolding mail
mail-rcpts cfg db from tos s = rcpts-Paired cfg db tos (mail from s) tt
