-- ===== src/Dkimsign/Tests.antt =====
-- Runs of internal/dkimsign/dkimsign.go: keys are texts, and PEM is a mark before the bytes.
use mailroom.Prelude.{
  Text, [], codes, false, nat_eq, none, refl, some, text_eq, true, ◌∷◌, ◌≡◌, Option,
}
use mailroom.Dkimsign.{Faults, IsRsa, Rsa, load_or_generate_key, loaded}
use mailroom.Dkimsign.Keys.{load_or_generate_key-again}

abbrev without_mark : Text → Option Text
without_mark [] = none
without_mark (c ∷ s) = some s

abbrev toy : Rsa Text
toy = record {
  generate = some (codes "k1");
  marshal = λ key. key;
  parse = λ bytes. some bytes;
  pem_encode = λ bytes. b'-' ∷ bytes;
  pem_decode = without_mark;
  public_der = λ key. some key;
  base64 = λ der. der;
}

toy-IsRsa : IsRsa toy
toy-IsRsa = record { decoded = λ bytes. refl; parsed = λ key. refl }

abbrev no_faults : Faults
no_faults = record { read = false; mkdir = false; write = false; torn = λ text. none }

load_or_generate_key-again_example :
    load_or_generate_key toy no_faults (some (codes "-k1"))
    ≡ (some (codes "-k1"), loaded (codes "k1") false)
unfolding load_or_generate_key
load_or_generate_key-again_example =
    load_or_generate_key-again toy no_faults no_faults none (some (codes "-k1")) (codes "k1") true
      toy-IsRsa refl refl
