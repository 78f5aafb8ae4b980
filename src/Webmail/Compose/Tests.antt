-- ===== src/Webmail/Compose/Tests.antt =====
-- Runs of internal/webmail/compose_handlers.go: a subject with a line break in it.
use mailroom.Prelude.{List, Option, Text, [], codes, nat_eq, refl, some, text_eq, ◌++◌, ◌∷◌}
use mailroom.Webmail.Compose.{
  Address, Draft, Form, Parser, prepare, sanitize_header_value, sanitized,
}
use mailroom.Webmail.Compose.Headers.{IsSafe, prepare-IsSafe}

abbrev one_address : Text → Option (List Address)
one_address s = some (record { name = []; address = s } ∷ [])

abbrev parser : Parser
parser = record {
  parse_address = λ s. some (record { name = []; address = s });
  parse_address_list = one_address;
}

abbrev form : Form
form = record {
  fields = record {
    to = codes " b@b.org";
    cc = [];
    subject = codes "hi" ++ 13 ∷ 10 ∷ codes "Bcc: c@c.org";
    body = codes "text";
    in_reply_to = [];
    references = [];
  };
  attachments = some [];
}

abbrev draft : Draft
draft = record {
  to = record { name = []; address = codes "b@b.org" } ∷ [];
  cc = [];
  subject = codes "hi  Bcc: c@c.org";
  body = codes "text";
  in_reply_to = [];
  references = [];
  attachments = [];
}

prepare-IsSafe_example : IsSafe parser form draft
unfolding prepare sanitized sanitize_header_value
prepare-IsSafe_example = prepare-IsSafe parser form draft refl
