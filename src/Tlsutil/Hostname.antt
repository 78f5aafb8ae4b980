-- ===== src/Tlsutil/Hostname.antt =====
-- internal/tlsutil/tlsutil.go: whom and when a certificate of its own vouches for.
use mailroom.Prelude.{
  Option-cases, Text, ap, subst, ◌^◌, ◌≢◌, [], arith, inl, inr, refl, some, sym, ℕ, ◌<◌, ◌≡◌, ◌≤◌,
  ◌⊎◌, ◌∷◌,
}
use mailroom.Tlsutil.{Certificate, Crypto, TlsConfig, config_of, load, self_signed, template}

module _ {Key Ip : Type 0} (crypto : Crypto Key Ip) (now : ℕ) where
  -- The template names the host once, as an address or as a name, and is valid now and for a year.
  template_lem :
      (hostname : Text) (serial : ℕ)
      → let t = template crypto now hostname serial in
        (((t.dns_names ≡ hostname ∷ []) × (t.ip_addresses ≡ []))
          ⊎ ((ip : Ip) × (crypto.parse_ip hostname ≡ some ip)
              × (t.dns_names ≡ [])
              × (t.ip_addresses ≡ ip ∷ [])))
        × (t.not_before ≤ now)
        × (now < t.not_after)
  unfolding template
  template_lem hostname serial = (
    elim (Option-cases (crypto.parse_ip hostname)) [
      | inl absent ↦ inl (rw (absent) refl, rw (absent) refl)
      | inr (ip, found) ↦ inr (ip, found, rw (found) refl, rw (found) refl)
    ],
    omega arith,
    omega arith,
  )

  -- What selfSigned answers is one X.509 certificate of that template, by the key it comes with.
  self_signed_lem :
      (hostname : Text) (cert : Certificate Key)
      → self_signed crypto now hostname ≡ some cert
      → (serial : ℕ) × (der : Text) × (crypto.create_certificate
            (template crypto now hostname serial)
            cert.private_key
          ≡ some der)
        × (cert.certificate ≡ der ∷ [])
  unfolding self_signed
  self_signed_lem hostname cert made = elim (Option-cases crypto.generate_key) [
    | inl dry ↦ absurd (cc (rw (self_signed, dry) at made))
    | inr (key, keyed) ↦ elim (Option-cases (crypto.random_below (2 ^ 128))) [
      | inl dry ↦ absurd (cc (rw (self_signed, keyed, dry) at made))
      | inr (serial, drawn) ↦
          let signed = crypto.create_certificate (template crypto now hostname serial) key in
          elim (Option-cases signed) [
            | inl fault ↦ absurd (cc (rw (self_signed, keyed, drawn, fault) at made))
            | inr (der, fine) ↦
                let own : Certificate Key = record { certificate = der ∷ []; private_key = key } in
                let ran : some own ≡ some cert = rw (self_signed, keyed, drawn, fine) at made in
                let it : own ≡ cert = cc ran in
                (
                  serial,
                  der,
                  subst
                      (λ (c : Certificate Key).
                        crypto.create_certificate (template crypto now hostname serial)
                          c.private_key
                        ≡ some der)
                      it fine,
                  sym (ap (λ (c : Certificate Key). c.certificate) it),
                )
          ]
    ]
  ]

  -- The branch of Load without a pair of files.
  unpaired :
      (cert_file key_file hostname : Text) (t : TlsConfig Key)
      → (cert_file ≡ []) ⊎ (key_file ≡ [])
      → load crypto now [] [] hostname ≡ inr t
      → (cert : Certificate Key) × (t ≡ config_of crypto now cert)
        × (((cert_file ≢ [])
              × (key_file ≢ [])
              × (crypto.load_key_pair cert_file key_file ≡ some cert))
            ⊎ (((cert_file ≡ []) ⊎ (key_file ≡ []))
                × (self_signed crypto now hostname ≡ some cert)))
  unfolding load
  unpaired cert_file key_file hostname t lacking ran =
      elim (Option-cases (self_signed crypto now hostname)) [
        | inl fault ↦ absurd (cc (rw (load, fault) at ran))
        | inr (cert, made) ↦
            let it : inr (config_of crypto now cert) ≡ inr t = rw (load, made) at ran in
            (cert, cc it, inr (lacking, made))
      ]

  -- Load answers one certificate for TLS 1.2 and later: that of the files where both are named, and one
  -- of its own where one of them is not.
  load_lem :
      (cert_file key_file hostname : Text) (t : TlsConfig Key)
      → load crypto now cert_file key_file hostname ≡ inr t
      → (cert : Certificate Key) × (t ≡ config_of crypto now cert)
        × (((cert_file ≢ [])
              × (key_file ≢ [])
              × (crypto.load_key_pair cert_file key_file ≡ some cert))
            ⊎ (((cert_file ≡ []) ⊎ (key_file ≡ []))
                × (self_signed crypto now hostname ≡ some cert)))
  unfolding load
  load_lem [] key_file hostname t ran = unpaired [] key_file hostname t (inl refl) ran
  load_lem (x ∷ cert_file) [] hostname t ran = unpaired (x ∷ cert_file) [] hostname t (inr refl) ran
  load_lem (x ∷ cert_file) (y ∷ key_file) hostname t ran =
      elim (Option-cases (crypto.load_key_pair (x ∷ cert_file) (y ∷ key_file))) [
        | inl fault ↦ absurd (cc (rw (load, fault) at ran))
        | inr (cert, read) ↦
            let it : inr (config_of crypto now cert) ≡ inr t = rw (load, read) at ran in
            (cert, cc it, inl (λ e. cc e, λ e. cc e, read))
      ]
