-- ===== src/Config/Tests.antt =====
-- Runs of internal/config/config.go: the domains that a variable of the environment names.
use mailroom.Prelude.{[], codes, if◌then◌else◌, nat_eq, none, refl, some, text_eq, ◌==◌, ◌∷◌, ◌≡◌}
use mailroom.Config.{Env, or_kept_list, split_and_trim}

abbrev two_domains : Env
two_domains =
    λ name. if name == codes "MAILSERVER_DOMAINS" then some (codes "a.org , b.org,") else none

domains_read :
    or_kept_list (two_domains (codes "MAILSERVER_DOMAINS")) [] ≡ codes "a.org" ∷ codes "b.org" ∷ []
unfolding or_kept_list split_and_trim
domains_read = refl
