-- ===== src/Smtp.antt =====
-- internal/smtpserver: the sessions of port 25 and of the submission port.
pub mod Inbound
pub mod Submission
use mailroom.Prelude.{Text, nat_eq, text_eq, ℕ}

-- What a command answers: nothing, an SMTP error with its code, or the error of reading the message.
pub data Reply : Type 0 where
  accepted unreadable : Reply
  refused : ℕ → Text → Reply
