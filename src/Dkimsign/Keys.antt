-- ===== src/Dkimsign/Keys.antt =====
-- internal/dkimsign/dkimsign.go: a key that was made is found again.
use mailroom.Prelude.{
  Bool, Bool-cases, Option, Option-cases, Text, ap, false, inl, inr, none, nat_eq, some, text_eq,
  true, ◌≡◌, subst,
}
use mailroom.Dkimsign.{Faults, IsRsa, Rsa, load_or_generate_key, loaded, parse_file}

-- A key that is read is not a new one.
parse_file-read :
    {Key : Type 0} (r : Rsa Key) (f : Faults) (buf : Text) (key : Key) (generated : Bool)
    → parse_file r f buf ≡ loaded key generated
    → parse_file r f buf ≡ loaded key false
unfolding parse_file
parse_file-read r f buf key generated e = elim (Option-cases (r.pem_decode buf)) [
  | inl bad ↦ absurd (cc (rw (parse_file, bad) at e))
  | inr (bytes, good) ↦ elim (Option-cases (r.parse bytes)) [
    | inl bad ↦ absurd (cc (rw (parse_file, good, bad) at e))
    | inr (key1, fine) ↦
        let it : loaded key1 false ≡ loaded key generated = rw (parse_file, good, fine) at e in
        rw (parse_file, good, fine) (same key1 key generated it)
  ]
]
  where
    same :
        {Key : Type 0} (a b : Key) (g : Bool)
        → loaded a false ≡ loaded b g
        → loaded a false ≡ loaded b false
    same a b g e = let k : a ≡ b = cc e in ap (λ x. loaded x false) k

-- The key survives a restart: after a call that gives a key, whether it was read or made, every later
-- call that can read the file gives the same key, does not make another one, and leaves the file as
-- it is. PEM and PKCS #1 give back what was written.
pub load_or_generate_key-again :
    {Key : Type 0} (r : Rsa Key) (f g : Faults) (before after : Option Text) (key : Key)
    (generated : Bool)
    → IsRsa r
    → load_or_generate_key r f before ≡ (after, loaded key generated)
    → g.read ≡ false
    → load_or_generate_key r g after ≡ (after, loaded key false)
unfolding load_or_generate_key parse_file
load_or_generate_key-again r f g (some buf) after key generated v e works =
    elim (Bool-cases f.read) [
      | inl fault ↦ absurd (cc (rw (load_or_generate_key, fault) at e))
      | inr fine ↦
          let ran : (some buf, parse_file r f buf) ≡ (after, loaded key generated) =
            rw (load_or_generate_key, fine) at e in
          let file : some buf ≡ after = ap (λ p. p.0) ran in
          let read = parse_file-read r f buf key generated (ap (λ p. p.1) ran) in
          subst (λ x. load_or_generate_key r g x ≡ (x, loaded key false)) file
            (rw (load_or_generate_key, works) (ap (λ x. (some buf, x)) read))
    ]
load_or_generate_key-again r f g none after key generated v e works = elim (Bool-cases f.read) [
  | inl fault ↦ absurd (cc (rw (load_or_generate_key, fault) at e))
  | inr fine ↦ elim (Option-cases r.generate) [
    | inl dry ↦ absurd (cc (rw (load_or_generate_key, fine, dry) at e))
    | inr (made, random) ↦ elim (Bool-cases f.mkdir) [
      | inl fault ↦ absurd (cc (rw (load_or_generate_key, fine, random, fault) at e))
      | inr there ↦ elim (Bool-cases f.write) [
        | inl fault ↦ absurd (cc (rw (load_or_generate_key, fine, random, there, fault) at e))
        | inr written ↦
            let text = r.pem_encode (r.marshal made) in
            let ran : (some text, loaded made true) ≡ (after, loaded key generated) =
              rw (load_or_generate_key, fine, random, there, written) at e in
            let file : some text ≡ after = ap (λ p. p.0) ran in
            let same : loaded made true ≡ loaded key generated = ap (λ p. p.1) ran in
            let it : made ≡ key = cc same in
            subst (λ x. load_or_generate_key r g x ≡ (x, loaded key false)) file
              (rw
                (load_or_generate_key, works, parse_file, v.decoded (r.marshal made), v.parsed made)
                (ap (λ k. (some text, loaded k false)) it))
      ]
    ]
  ]
]
