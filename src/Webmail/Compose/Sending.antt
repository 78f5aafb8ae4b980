-- ===== src/Webmail/Compose/Sending.antt =====
-- internal/webmail/compose_handlers.go: the message that a draft becomes, and its sending. The writer
-- of go-message is an argument: it gives the text of the headers and parts that are set.
use mailroom.Prelude.{
  Bool, List, Option, Text, [], codes, if◌then◌else◌, is_nil, is_space, map, nat_eq, none, some,
  text_eq, trim_left, trim_right, ℕ, ◌++◌, ◌==◌, ◌||◌, ◌∷◌,
}
use mailroom.Mailsend
use mailroom.Mailsend.{
  Log, Outlet, SendResult, invalid_recipient, invalid_sender, not_stored, send, sent,
  signing_failed,
}
use mailroom.Webmail.Compose.{
  Address, Attachment, Draft, Form, Parser, Reply, build_failed, prepare, ready, rejected,
  send_failed, to_crlf, to_sent, too_large,
}

-- The headers and parts that are set; the charset of the text is utf-8. Headers that are left unset
-- are none.
pub record Outgoing : Type 0 where
  pub from : List Address
  pub to : List Address
  pub cc : Option (List Address)
  pub subject : Text
  pub date : ℕ
  pub message_id : Text
  pub in_reply_to : Option (List Text)
  pub references : Option (List Text)
  pub text : Text
  pub attachments : List Attachment

abbrev pub add_word : Text → List Text → List Text
add_word [] rest = rest
add_word (c ∷ word) rest = (c ∷ word) ∷ rest

-- strings.Fields, where `word` stands before the text; spaces are those of ASCII.
unfoldable pub fields_from : Text → Text → List Text
unfolding is_space
fields_from word [] = add_word word []
fields_from word (c ∷ s) =
    let after = fields_from [] s in
    let longer = fields_from (word ++ c ∷ []) s in
    if is_space c then add_word word after else longer

unfoldable pub fields : Text → List Text
unfolding fields_from
fields s = fields_from [] s

abbrev is_angle : ℕ → Bool
is_angle c = c == b'<' || c == b'>'

-- strings.Trim of "<>"
unfoldable pub trim_angles : Text → Text
unfolding trim_left trim_right
trim_angles s = trim_right is_angle (trim_left is_angle s)

abbrev pub typed : Attachment → Attachment
typed a = record a {
  content_type = if is_nil a.content_type then codes "application/octet-stream" else a.content_type;
}

unfoldable pub cc_header : List Address → Option (List Address)
cc_header [] = none
cc_header (a ∷ l) = some (a ∷ l)

-- The headers and parts that buildOutgoingMessage sets; `id` is generateLocalMessageID's.
unfoldable pub outgoing : Text → Text → Text → ℕ → Draft → Outgoing
unfolding cc_header fields trim_angles to_crlf
outgoing hostname from id now d = record {
  from = record { name = []; address = from } ∷ [];
  to = d.to;
  cc = cc_header d.cc;
  subject = d.subject;
  date = now;
  message_id = id ++ codes "@" ++ hostname;
  in_reply_to = if is_nil d.in_reply_to then none else some (trim_angles d.in_reply_to ∷ []);
  references = if is_nil d.references then none else some (fields d.references);
  text = to_crlf d.body;
  attachments = map typed d.attachments;
}

-- buildOutgoingMessage
unfoldable pub build_outgoing_message :
    (Outgoing → Option Text) → Text → Text → Text → ℕ → Draft → Option Text
unfolding outgoing
build_outgoing_message write hostname from id now d = write (outgoing hostname from id now d)

abbrev pub address_of : Address → Text
address_of a = a.address

unfoldable pub recipients : Draft → List Text
recipients d = map address_of d.to ++ map address_of d.cc

abbrev pub after_send : Log × SendResult → Log × Option Text × Reply
after_send (log, sent full) = (log, some full, to_sent)
after_send (log, invalid_sender) = (log, none, send_failed)
after_send (log, signing_failed) = (log, none, send_failed)
after_send (log, invalid_recipient r) = (log, none, send_failed)
after_send (log, not_stored r) = (log, none, send_failed)

-- handleComposeSubmit: the log of what is stored, the message that is then put into Sent, if any, and
-- the answer. A Sent copy that cannot be stored is logged.
unfoldable pub handle_compose_submit :
    Parser
    → (Outgoing → Option Text)
    → Text
    → ℕ
    → Mailsend.Config
    → Outlet
    → Option (Text → Text → Option Text)
    → Text
    → Option Form
    → Log
    → Log × Option Text × Reply
unfolding prepare recipients send build_outgoing_message
handle_compose_submit p write id now cfg stores signer self none log = (log, none, too_large)
handle_compose_submit p write id now cfg stores signer self (some form) log =
    elim (prepare p form) [
      | rejected r ↦ (log, none, r)
      | ready d ↦ elim (build_outgoing_message write cfg.hostname self id now d) [
        | none ↦ (log, none, build_failed)
        | some raw ↦ after_send (send cfg stores signer self (recipients d) raw log)
      ]
    ]
