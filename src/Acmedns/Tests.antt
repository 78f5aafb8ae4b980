-- ===== src/Acmedns/Tests.antt =====
-- Runs of internal/acmedns/acmedns.go: certificates are pairs of texts that end at a fixed time.
use mailroom.Prelude.{
  Text, [], codes, false, nat_eq, none, refl, some, text_eq, true, ℕ, ◌^◌, ◌∷◌, ◌≡◌,
}
use mailroom.Acmedns.{Codec, Manager, Services, ensure_certificate, needs_renewal, obtain}
use mailroom.Acmedns.Restart.{obtain-ensure_certificate}
use mailroom.Config.{AcmeConfig}

abbrev settings : AcmeConfig
settings = record {
  enabled = true;
  email = codes "a@a.org";
  cache_dir = [];
  provider = [];
  options = [];
  staging = false;
}

abbrev codec : Codec Text ℕ Text
codec = record {
  key_pair = λ chain key. some chain;
  not_after = λ cert. some (10 ^ 17);
  decode_account = λ text. none;
  encode_account = λ user. some user.key;
  generate_key = some (codes "k");
}

abbrev working : Services Text ℕ
working = record {
  has_client = true;
  has_provider = true;
  register = λ user. some 7;
  obtain = λ user domains. some (codes "chain", codes "key");
  writes_account = true;
  writes_cert = true;
  writes_key = true;
  left = λ old text. old;
}

abbrev down : Services Text ℕ
down = record working { has_client = false }

abbrev empty : Manager Text
empty = record { cache = record { fullchain = none; privkey = none; account = none }; cert = none }

abbrev issued : Manager Text
issued = (obtain codec settings (codes "a.org" ∷ []) working empty).0

obtain-ensure_certificate_example :
    ensure_certificate codec settings
      (codes "a.org" ∷ [])
      down
      5
      (record { cache = issued.cache; cert = none })
    ≡ (record { cache = issued.cache; cert = some (codes "chain") }, none)
unfolding obtain needs_renewal
obtain-ensure_certificate_example =
    obtain-ensure_certificate codec settings (codes "a.org" ∷ []) working down 5 empty issued
      (codes "chain") refl refl refl
