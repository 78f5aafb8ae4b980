-- ===== src/Queue/Relay/Tests.antt =====
-- Runs of internal/queue/relay.go.
use mailroom.Prelude.{All, codes, inl, inr, nat_eq, none, refl, some, text_eq, ◌≡◌, ◌≢◌}
use mailroom.Queue.Relay.{
  Server, auth, close, dial_plain, dial_tls, hello, mail, other_error, quit, rcpt, start_content,
  steps, try_smart_host, write,
}
use mailroom.Queue.Relay.Credentials.{login_needs_tls}

-- A server that takes everything but QUIT.
abbrev hasty : Server
hasty = elim [
  | dial_tls ↦ none
  | dial_plain ↦ none
  | hello ↦ none
  | auth ↦ none
  | mail ↦ none
  | rcpt ↦ none
  | start_content ↦ none
  | write ↦ none
  | close ↦ none
  | quit ↦ some (other_error (codes "EOF"))
]

login_needs_tls_example :
    (hasty dial_tls ≡ none)
    × All (λ c. c ≢ dial_plain) (try_smart_host hasty (codes "relay:587")).calls
unfolding try_smart_host steps
login_needs_tls_example = login_needs_tls hasty (codes "relay:587") (inr (inr (inl refl)))
