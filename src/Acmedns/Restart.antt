-- ===== src/Acmedns/Restart.antt =====
-- internal/acmedns/acmedns.go: a restart after a certificate was obtained.
use mailroom.Prelude.{
  Bool-cases, List, Option-cases, Text, ap, false, inl, inr, none, nat_eq, refl, some, subst,
  text_eq, ℕ, ◌≡◌, ◌∙◌,
}
use mailroom.Acmedns.{
  Account, AcmeUser, Cache, Codec, Manager, Services, account_ready, after_account, cached_pair,
  dns_provider, ensure_certificate, issue, load_account, needs_renewal, no_account, obtain,
  registered,
}
use mailroom.Config.{AcmeConfig}

module _ {Key Reg Cert : Type 0} (x : Codec Key Reg Cert) (c : AcmeConfig)
    (domains : List Text) where
  issue-cached :
      (s : Services Key Reg) (user : AcmeUser Key Reg) (m m1 : Manager Cert)
      → issue x c domains s user m ≡ (m1, none)
      → cached_pair x c domains m1.cache ≡ m1.cert
  unfolding issue cached_pair
  issue-cached s user m m1 e = elim (Option-cases (s.obtain user domains)) [
    | inl dry ↦ absurd (cc (rw (issue, dry) at e))
    | inr ((chain, key), given) ↦ elim (Bool-cases s.writes_cert) [
      | inr fault ↦ absurd (cc (rw (issue, given, fault) at e))
      | inl first ↦ elim (Bool-cases s.writes_key) [
        | inr fault ↦ absurd (cc (rw (issue, given, first, fault) at e))
        | inl second ↦ elim (Option-cases (x.key_pair chain key)) [
          | inl bad ↦ absurd (cc (rw (issue, given, first, second, bad) at e))
          | inr (cert, pair) ↦
              let it = ap (λ r. r.0) (rw (issue, given, first, second, pair) at e) in
              subst (λ (y : Manager Cert). cached_pair x c domains y.cache ≡ y.cert) it pair
        ]
      ]
    ]
  ]

  after_account-cached :
      (s : Services Key Reg) (m m1 : Manager Cert) (r : Cache × Account x c domains)
      → after_account x c domains s m r ≡ (m1, none)
      → cached_pair x c domains m1.cache ≡ m1.cert
  after_account-cached s m m1 (files, no_account p) e = absurd (cc e)
  after_account-cached s m m1 (files, account_ready user) e =
      issue-cached s user (record m { cache = files }) m1 e

  obtain-cached :
      (s : Services Key Reg) (m m1 : Manager Cert)
      → obtain x c domains s m ≡ (m1, none)
      → cached_pair x c domains m1.cache ≡ m1.cert
  unfolding obtain
  obtain-cached s m m1 e = elim (Option-cases (load_account x c domains m.cache)) [
    | inl bad ↦ absurd (cc (rw (obtain, bad) at e))
    | inr (user, there) ↦ elim (Bool-cases s.has_client) [
      | inr dry ↦ absurd (cc (rw (obtain, there, dry) at e))
      | inl client ↦ elim (Bool-cases (dns_provider x c domains s)) [
        | inr dry ↦ absurd (cc (rw (obtain, there, client, dry) at e))
        | inl provider ↦
            after_account-cached s m m1 (registered x c domains s user m.cache)
              (rw (obtain, there, client, provider) at e)
      ]
    ]
  ]

  -- A restart does not issue a certificate again: after one was obtained, the start of the next process
  -- serves the same certificate from the cache and asks none of the services, whatever they would
  -- answer, as long as it is not near its end. The cache is that of the process before.
  pub obtain-ensure_certificate :
      (s later : Services Key Reg) (now : ℕ) (m m1 : Manager Cert) (cert : Cert)
      → obtain x c domains s m ≡ (m1, none)
      → m1.cert ≡ some cert
      → needs_renewal x c domains now (some cert) ≡ false
      → ensure_certificate x c domains later now (record { cache = m1.cache; cert = none })
        ≡ (record { cache = m1.cache; cert = some cert }, none)
  unfolding ensure_certificate
  obtain-ensure_certificate s later now m m1 cert e served fresh =
      let pair = obtain-cached s m m1 e ∙ served in rw (ensure_certificate, pair, fresh) refl
