-- ===== src/Mailsend/Tests.antt =====
-- A run of internal/mailsend/mailsend.go for a local and a remote recipient.

use mailroom.Mailsend.Dispatch.{LeftOver, dispatch_lem}
use mailroom.Mailsend.{Config, Effect, dispatch, route}
use mailroom.Prelude.{List, Text, [], codes, map, nat_eq, some, text_eq, true, ◌++◌, ◌∷◌, ◌≡◌}

abbrev pub config : Config
config = record {
  domains = codes "a.org" ∷ [];
  hostname = codes "mail.a.org";
  maildir_path = record { rooted = true; segments = codes "mail" ∷ [] };
}

abbrev recipients : List Text
recipients = codes "bob@a.org" ∷ codes "carol@b.org" ∷ []

dispatch_lem_example :
    ((reached : List Text) × (rest : List Text) × (effects : List Effect) × (recipients
        ≡ reached ++ rest)
      × ((dispatch config (λ _ _. true) (codes "alice@a.org") (codes "hi") recipients []).0
          ≡ [] ++ effects)
      × (map (route config (codes "alice@a.org") (codes "hi")) reached ≡ map some effects)
      × LeftOver
          (dispatch config (λ _ _. true) (codes "alice@a.org") (codes "hi") recipients []).1
          (codes "hi")
          rest)
dispatch_lem_example =
    dispatch_lem config (λ _ _. true) (codes "alice@a.org") (codes "hi") recipients []
