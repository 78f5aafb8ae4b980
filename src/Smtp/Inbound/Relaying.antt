-- ===== src/Smtp/Inbound/Relaying.antt =====
-- internal/smtpserver/inbound.go: what Data stores.
use mathlib.Core.List.{append_assoc, append-nil}
use mailroom.Smtp.Inbound.Pairing.{Paired}
use mailroom.Smtp.{Reply, accepted, refused}
use mailroom.Store.Users.{get_user_by_email}
use mailroom.Address.{split}
use mailroom.Prelude.{
  All, All-append, Bool, Bool-cases, List, Option-cases, Text, [], all, ap, arith, codes,
  if◌then◌else◌, inl, inr, is_nil, nat_eq, not, refl, some, sym, text_eq, true, ◌++◌, ◌==◌, ◌||◌,
  ◌∙◌, ◌∷◌, ◌≡◌, ◌⊎◌,
}
use mailroom.Store.{Db, Result-cases, User}
use mailroom.Store.Settings.{get_forwarding}
use mailroom.Mailsend.{Config, Effect, Log, Outlet, delivered, folder_of, is_local_domain, queued}
use mailroom.Smtp.Inbound.{
  Peer, Session, Verdict, data_command, deliveries, finished, forward, full_message, own_copy,
  parts,
}

-- A copy for the address of the user's own, enabled rule, from the recipient's address.
abbrev pub Forwarded : Config → Db → Text → User → Text → Effect → Type 0
Forwarded cfg db r u full e =
    ((get_forwarding u.id db).enabled ≡ true)
    × ((e ≡ queued r (get_forwarding u.id db).forward_to full)
        ⊎ (e
            ≡ delivered
                (folder_of cfg (parts (get_forwarding u.id db).forward_to).1
                  (parts (get_forwarding u.id db).forward_to).0 (codes "INBOX"))
                full))

-- The copy is the recipient's own, or one that the recipient's user forwards.
abbrev pub Justified : Config → Db → Peer → Verdict → Text → List Text → List User → Effect → Type 0
Justified cfg db peer verdict body [] us e = ⊥
Justified cfg db peer verdict body (r ∷ rs) [] e = ⊥
Justified cfg db peer verdict body (r ∷ rs) (u ∷ us) e =
    (e ≡ own_copy cfg peer verdict body r)
    ⊎ Forwarded cfg db r u (full_message cfg peer verdict r body) e
    ⊎ Justified cfg db peer verdict body rs us e

module _ (cfg : Config) (db : Db) (stores : Outlet) where
  kept :
      (r : Text) (u : User) (full : Text) (e : Effect) (log : Log)
      → Forwarded cfg db r u full e
      → ((more : List Effect) × ((if stores log e then log ++ e ∷ [] else log) ≡ log ++ more)
          × All (Forwarded cfg db r u full) more)
  kept r u full e log f = elim (Bool-cases (stores log e)) [
    | inl stored ↦ (e ∷ [], rw (stored) refl, (f, tt))
    | inr failed ↦ ([], rw (failed) (sym (append-nil log)), tt)
  ]

module _ (cfg : Config) (db : Db) (stores : Outlet) (has_queue : Bool) where
  forward_lem :
      (r : Text) (u : User) (full : Text) (log : Log)
      → ((more : List Effect) × (forward cfg db stores has_queue r u.id full log ≡ log ++ more)
          × All (Forwarded cfg db r u full) more)
  unfolding forward parts
  forward_lem r u full log =
      elim (Bool-cases
        (not (get_forwarding u.id db).enabled || (get_forwarding u.id db).forward_to == [])) [
          | inl off ↦ ([], rw (forward, off) (sym (append-nil log)), tt)
          | inr on ↦ elim (Option-cases (split (get_forwarding u.id db).forward_to)) [
            | inl bad ↦ ([], rw (forward, on, bad) (sym (append-nil log)), tt)
            | inr ((local_part, domain), good) ↦
                let enabled : (get_forwarding u.id db).enabled ≡ true = ground (arith, on) in
                elim (Bool-cases (is_local_domain cfg domain)) [
                  | inl here ↦
                      elim (Result-cases
                        (get_user_by_email db (get_forwarding u.id db).forward_to)) [
                          | inl (e, unknown) ↦
                              ([], rw (forward, on, good, here, unknown) (sym (append-nil log)), tt)
                          | inr (w, known) ↦
                              let (more, e, all) =
                                kept cfg db stores r u full
                                  (delivered (folder_of cfg domain local_part (codes "INBOX")) full)
                                  log (enabled, inr (rw (parts, good) refl)) in
                              (more, rw (forward, on, good, here, known) e, all)
                        ]
                  | inr elsewhere ↦ elim (Bool-cases has_queue) [
                    | inl queue ↦
                        let (more, e, all) =
                          kept cfg db stores r u full
                            (queued r (get_forwarding u.id db).forward_to full) log
                            (enabled, inl refl) in
                        (more, rw (forward, on, good, elsewhere, queue) e, all)
                    | inr no_queue ↦
                        ([], rw (forward, on, good, elsewhere, no_queue) (sym (append-nil log)), tt)
                  ]
                ]
          ]
        ]

  first :
      (peer : Peer) (verdict : Verdict) (body r : Text) (rs : List Text) (u : User) (us : List User)
      (more : List Effect)
      → All (Forwarded cfg db r u (full_message cfg peer verdict r body)) more
      → All (Justified cfg db peer verdict body (r ∷ rs) (u ∷ us)) more
  first peer verdict body r rs u us [] h = tt
  first peer verdict body r rs u us (e ∷ more) (h, hs) =
      (inr (inl h), first peer verdict body r rs u us more hs)

  rest :
      (peer : Peer) (verdict : Verdict) (body r : Text) (rs : List Text) (u : User) (us : List User)
      (more : List Effect)
      → All (Justified cfg db peer verdict body rs us) more
      → All (Justified cfg db peer verdict body (r ∷ rs) (u ∷ us)) more
  rest peer verdict body r rs u us [] h = tt
  rest peer verdict body r rs u us (e ∷ more) (h, hs) =
      (inr (inr h), rest peer verdict body r rs u us more hs)

  deliveries_lem :
      (peer : Peer) (verdict : Verdict) (body : Text) (rs : List Text) (us : List User) (log : Log)
      → Paired cfg db rs us
      → ((effects : List Effect) × (reply : Reply) × (deliveries cfg db stores has_queue peer
              verdict body rs us log
            ≡ finished (log ++ effects) reply)
          × All (Justified cfg db peer verdict body rs us) effects)
  unfolding deliveries
  deliveries_lem peer verdict body [] us log p =
      ([], accepted, ap (λ l. finished l accepted) (sym (append-nil log)), tt)
  deliveries_lem peer verdict body (r ∷ rs) [] log p = elim p [ ]
  deliveries_lem peer verdict body (r ∷ rs) (u ∷ us) log (found, here, p) =
      elim (Bool-cases (stores log (own_copy cfg peer verdict body r))) [
        | inr failed ↦ (
          [],
          refused 451 (codes "Temporary delivery failure, please retry"),
          rw (deliveries, failed)
              (ap (λ l. finished l (refused 451 (codes "Temporary delivery failure, please retry")))
                (sym (append-nil log))),
          tt,
        )
        | inl stored ↦
            let copy = own_copy cfg peer verdict body r in
            let full = full_message cfg peer verdict r body in
            let (more, forwards, all) = forward_lem r u full (log ++ copy ∷ []) in
            let (effects, reply, ends, others) =
              deliveries_lem peer verdict body rs us (log ++ copy ∷ [] ++ more) p in
            (
              copy ∷ (more ++ effects),
              reply,
              rw (deliveries, stored, forwards)
                  (ends
                    ∙ ap (λ l. finished l reply)
                        (append_assoc (log ++ copy ∷ []) more effects
                          ∙ append_assoc log (copy ∷ []) (more ++ effects))),
              (
                inl refl,
                All-append (Justified cfg db peer verdict body (r ∷ rs) (u ∷ us)) more effects
                    (first peer verdict body r rs u us more all)
                    (rest peer verdict body r rs u us effects others),
              ),
            )
      ]

  -- In a transaction whose recipients stand beside their users, as after MAIL and RCPT, Data of a
  -- message that is read returns,
  -- and everything it stores is a recipient's own copy in the folder of the verdict, or a copy for the
  -- address of an enabled rule of a recipient's user: nothing else is relayed.
  pub data_no_relay :
      (peer : Peer) (verify : Text → Text → Verdict) (content : Text) (s : Session) (log : Log)
      → Paired cfg db s.rcpts s.rcpt_users
      → ((effects : List Effect) × (reply : Reply) × (data_command cfg db stores has_queue peer
              verify
              (some content)
              s
              log
            ≡ finished (log ++ effects) reply)
          × All
              (Justified cfg db peer (verify s.from content) content s.rcpts s.rcpt_users)
              effects)
  unfolding data_command
  data_no_relay peer verify content s log p = elim (Bool-cases (is_nil s.rcpts)) [
    | inl nobody ↦ (
      [],
      refused 554 (codes "No valid recipients"),
      rw (data_command, nobody)
          (ap (λ l. finished l (refused 554 (codes "No valid recipients"))) (sym (append-nil log))),
      tt,
    )
    | inr some_rcpts ↦
        let (effects, reply, ends, all) =
          deliveries_lem peer (verify s.from content) content s.rcpts s.rcpt_users log p in
        (effects, reply, rw (data_command, some_rcpts) ends, all)
  ]
