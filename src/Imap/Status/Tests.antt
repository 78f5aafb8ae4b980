-- ===== src/Imap/Status/Tests.antt =====
-- Runs of the reports of internal/imapbackend/mailbox.go: two messages, one of them seen.
use mailroom.Prelude.{List, [], arith, codes, nat_eq, text_eq, ◌==◌, ◌≤◌, ◌∷◌}
use mailroom.Imap.{Message}
use mailroom.Imap.Mailbox.{expunge_locked, uid_next}
use mailroom.Imap.Status.Counting.{uid_next-expunged}

abbrev two_messages : List Message
two_messages =
    record { uid = 3; key = codes "a"; date = 1; size = 2; flags = codes "\\seen" ∷ [] }
    ∷ record { uid = 8; key = codes "b"; date = 1; size = 2; flags = [] }
    ∷ []

uid_next-expunged_example : uid_next (expunge_locked (λ m. m.uid == 8) two_messages).1 ≤ 8
uid_next-expunged_example =
    uid_next-expunged 7 two_messages (omega arith, (omega arith, tt)) (omega arith)
