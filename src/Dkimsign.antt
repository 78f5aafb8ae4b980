-- ===== src/Dkimsign.antt =====
-- internal/dkimsign/dkimsign.go: the key that signs. RSA, PEM, the encodings of keys and base64 are
-- arguments, and a key is a value of any type. The file at the path is its content, none where there
-- is no file.
pub mod Keys
mod Tests
use mailroom.Prelude.{
  Bool, Option, Text, codes, false, if◌then◌else◌, none, some, true, ◌++◌, nat_eq, text_eq, ◌≡◌,
}

pub record Rsa (Key : Type 0) : Type 0 where
  pub generate : Option Key
  pub marshal : Key → Text
  pub parse : Text → Option Key
  pub pem_encode : Text → Text
  pub pem_decode : Text → Option Text
  pub public_der : Key → Option Text
  pub base64 : Text → Text

-- What is relied on: PEM and PKCS #1 give back what was written.
pub record IsRsa {Key : Type 0} (r : Rsa Key) : Type 0 where
  pub decoded : (bytes : Text) → r.pem_decode (r.pem_encode bytes) ≡ some bytes
  pub parsed : (key : Key) → r.parse (r.marshal key) ≡ some key

pub data Fault : Type 0 where
  no_pem bad_key unreadable no_random no_directory unwritten : Fault

pub data Loaded (Key : Type 0) : Type 0 where
  failed : Fault → Loaded Key
  loaded : (key : Key) → (generated : Bool) → Loaded Key

-- Which calls of the file system fail; a write that fails leaves a part of the text, or nothing.
pub record Faults : Type 0 where
  pub read : Bool
  pub mkdir : Bool
  pub write : Bool
  pub torn : Text → Option Text

module _ {Key : Type 0} (r : Rsa Key) (f : Faults) where
  unfoldable pub parse_file : Text → Loaded Key
  parse_file buf = elim (r.pem_decode buf) [
    | none ↦ failed no_pem
    | some bytes ↦ elim (r.parse bytes) [ none ↦ failed bad_key | some key ↦ loaded key false ]
  ]

  -- LoadOrGenerateKey
  unfoldable pub load_or_generate_key : Option Text → Option Text × Loaded Key
  unfolding parse_file
  load_or_generate_key (some buf) =
      if f.read then (some buf, failed unreadable) else (some buf, parse_file buf)
  load_or_generate_key none = if f.read then (none, failed unreadable) else elim r.generate [
    | none ↦ (none, failed no_random)
    | some key ↦
        let text = r.pem_encode (r.marshal key) in
        if f.mkdir
        then (none, failed no_directory)
        else if f.write
        then (f.torn text, failed unwritten)
        else (some text, loaded key true)
  ]

-- DNSRecord
unfoldable pub dns_record : {Key : Type 0} → Rsa Key → Key → Option Text
dns_record r key = elim (r.public_der key) [
  | none ↦ none
  | some der ↦ some (codes "v=DKIM1; k=rsa; p=" ++ r.base64 der)
]

-- Signer: the library signs with the key and the selector of the server for the domain that each call
-- gives.
unfoldable pub signer :
    {Key : Type 0}
    → (Text → Text → Key → Text → Option Text)
    → Text
    → Key
    → Text
    → Text
    → Option Text
signer sign selector key domain content = sign domain selector key content
