-- ===== src/Smtp/Inbound/Tests.antt =====
-- Runs of internal/smtpserver/inbound.go: mail for a user of a.org that is forwarded to b.org.

use mailroom.Smtp.Inbound.Relaying.{Justified, data_no_relay}
use mailroom.Smtp.Inbound.Pairing.{Paired, mail-rcpts, rcpts}
use mailroom.Smtp.Inbound.{Peer, Session, Verdict, data_command, finished, mail, parts}
use mailroom.Smtp.{Reply}
use mailroom.Mailsend.{Config, Effect, is_local_domain}
use mailroom.Store.Users.{get_user_by_email}
use mailroom.Store.{Db, User, empty_db}
use mailroom.Address.{last_index_byte, split}
use mailroom.Prelude.{
  All, List, Text, [], any, codes, drop, equal_fold, false, find_first, nat_eq, refl, some, take,
  text_eq, to_lower, true, ◌++◌, ◌∷◌, ◌≡◌,
}

abbrev config : Config
config = record {
  domains = codes "a.org" ∷ [];
  hostname = codes "mail.a.org";
  maildir_path = record { rooted = true; segments = codes "mail" ∷ [] };
}

abbrev alice : User
alice = record {
  id = 1;
  domain_id = 1;
  local_part = codes "alice";
  email = codes "alice@a.org";
  password_hash = codes "$pw";
  is_admin = false;
}

abbrev db : Db
db = record empty_db {
  users = alice ∷ [];
  forwarding = record { user_id = 1; enabled = true; forward_to = codes "al@b.org" } ∷ [];
}

abbrev peer : Peer
peer = record { helo = codes "mx.b.org"; remote_host = codes "192.0.2.1"; date = codes "today" }

abbrev session : Session
session = record {
  from = codes "eve@c.org";
  rcpts = codes "alice@a.org" ∷ [];
  rcpt_users = alice ∷ [];
}

abbrev pass : Text → Text → Verdict
pass from body = record { should_quarantine = false; authentication_results = codes "spf=pass" }

mail-rcpts_example :
    Paired config db
      (rcpts config db
        (codes "Alice@A.org" ∷ codes "x@b.org" ∷ [])
        (mail (codes "eve@c.org") session)).rcpts
      (rcpts config db
        (codes "Alice@A.org" ∷ codes "x@b.org" ∷ [])
        (mail (codes "eve@c.org") session)).rcpt_users
mail-rcpts_example =
    mail-rcpts config db (codes "eve@c.org") (codes "Alice@A.org" ∷ codes "x@b.org" ∷ []) session

data_no_relay_example :
    ((effects : List Effect) × (reply : Reply) × (data_command config db
          (λ _ _. true)
          true
          peer
          pass
          (some (codes "hi"))
          session
          []
        ≡ finished ([] ++ effects) reply)
      × All
          (Justified config db peer
            (pass (codes "eve@c.org") (codes "hi"))
            (codes "hi")
            (codes "alice@a.org" ∷ [])
            (alice ∷ []))
          effects)
unfolding get_user_by_email is_local_domain parts split find_first any equal_fold to_lower
    last_index_byte take drop
data_no_relay_example =
    data_no_relay config db (λ _ _. true) true peer pass (codes "hi") session [] (refl, refl, tt)
