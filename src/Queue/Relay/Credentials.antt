-- ===== src/Queue/Relay/Credentials.antt =====
-- internal/queue/relay.go: when a delivery makes the call of the login.
use mailroom.Prelude.{
  All, Any, In, List, Option-cases, Text, [], inl, inr, nat_eq, none, text_eq, ◌∷◌, ◌≡◌, ◌≢◌,
}
use mailroom.Queue.Relay.{
  Call, Server, auth, dial_plain, dial_tls, smart_host_steps, steps, try_smart_host,
}

-- The calls made are among those that were to be made.
steps-All :
    (P : Call → Type 0) (server : Server) (cs : List (Call × Text))
    → All (λ p. P p.0) cs
    → All P (steps server cs).calls
unfolding steps
steps-All P server [] h = tt
steps-All P server ((c, context) ∷ cs) (h, hs) = elim (Option-cases (server c)) [
  | inl ok ↦ rw (All, steps, ok) (h, steps-All P server cs hs)
  | inr (e, refused) ↦ rw (All, steps, refused) (h, tt)
]

-- The smart host is asked for a login only once the TLS connection stands, and a connection without
-- TLS is never made to it.
pub login_needs_tls :
    (server : Server) (addr : Text)
    → In auth (try_smart_host server addr).calls
    → (server dial_tls ≡ none) × All (λ c. c ≢ dial_plain) (try_smart_host server addr).calls
unfolding try_smart_host steps
login_needs_tls server addr h = (
  elim (Option-cases (server dial_tls)) [
    | inl ok ↦ ok
    | inr (e, refused) ↦ elim (rw (Any, In, try_smart_host, steps, refused) at h) [
      | inl same ↦ cc
      | inr other ↦ elim other [ ]
    ]
  ],
  steps-All (λ c. c ≢ dial_plain) server (smart_host_steps addr)
      (
        (λ e. cc),
        (
          (λ e. cc),
          (
            (λ e. cc),
            ((λ e. cc), ((λ e. cc), ((λ e. cc), ((λ e. cc), ((λ e. cc), ((λ e. cc), tt)))))),
          ),
        ),
      ),
)
