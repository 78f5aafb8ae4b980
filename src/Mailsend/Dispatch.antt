-- ===== src/Mailsend/Dispatch.antt =====
-- internal/mailsend/mailsend.go: which copies a Send stores.
use mailroom.Prelude.{
  Bool-cases, List, Option-cases, Text, [], all, ap, inl, inr, map, nat_eq, refl, some, sym,
  text_eq, ◌++◌, ◌∙◌, ◌∷◌, ◌≡◌, ◌≢◌,
}
use mathlib.Core.List.{append_assoc, append-nil}
use mailroom.Mailsend.{
  Config, Effect, Log, Outlet, SendResult, dispatch, invalid_recipient, invalid_sender, not_stored,
  route, sent, signing_failed,
}

-- Nobody is left after a success, and somebody is after a failure.
abbrev pub LeftOver : SendResult → Text → List Text → Type 0
LeftOver (sent copy) full rest = (rest ≡ []) × (copy ≡ full)
LeftOver invalid_sender full rest = rest ≢ []
LeftOver signing_failed full rest = rest ≢ []
LeftOver (invalid_recipient r) full rest = rest ≢ []
LeftOver (not_stored r) full rest = rest ≢ []

-- Send's loop stores one copy for each of the first recipients, in their order, each where its
-- address says, and stops: after all of them with a success, or before one of them with an error.
pub dispatch_lem :
    (cfg : Config) (stores : Outlet) (from full : Text) (rcpts : List Text) (log : Log)
    → ((reached : List Text) × (rest : List Text) × (effects : List Effect) × (rcpts
          ≡ reached ++ rest)
        × ((dispatch cfg stores from full rcpts log).0 ≡ log ++ effects)
        × (map (route cfg from full) reached ≡ map some effects)
        × LeftOver (dispatch cfg stores from full rcpts log).1 full rest)
unfolding dispatch
dispatch_lem cfg stores from full [] log =
    ([], [], [], refl, sym (append-nil log), refl, (refl, refl))
dispatch_lem cfg stores from full (rcpt ∷ rcpts) log =
    elim (Option-cases (route cfg from full rcpt)) [
      | inl bad ↦
          rw (dispatch, bad) ([], rcpt ∷ rcpts, [], refl, sym (append-nil log), refl, (λ e. cc))
      | inr (e, routed) ↦ elim (Bool-cases (stores log e)) [
        | inl stored ↦
            let (reached, rest, effects, all, stores_all, routes, left) =
              dispatch_lem cfg stores from full rcpts (log ++ e ∷ []) in
            rw (dispatch, routed, stored)
              (
                rcpt ∷ reached,
                rest,
                e ∷ effects,
                ap (λ l. rcpt ∷ l) all,
                stores_all ∙ append_assoc log (e ∷ []) effects,
                rw (routed) (ap (λ l. some e ∷ l) routes),
                left,
              )
        | inr failed ↦
            rw (dispatch, routed, failed)
              ([], rcpt ∷ rcpts, [], refl, sym (append-nil log), refl, (λ e. cc))
      ]
    ]
