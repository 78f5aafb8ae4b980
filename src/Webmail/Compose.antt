-- ===== src/Webmail/Compose.antt =====
-- internal/webmail/compose_handlers.go: composing a message. Package net/mail, which parses addresses,
-- and the reading of the form's files are arguments; a date is the text in
-- which it is printed.
pub mod Headers
pub mod Lines
pub mod Sending
mod Words
mod Tests
use mailroom.Prelude.{
  Bool, List, Option, Text, [], codes, if◌then◌else◌, has_prefix, is_nil, join, keep, map, nat_eq,
  none, not, some, replace_byte, split_at_byte, text_eq, to_lower, trim_right, trim_space, ◌&&◌,
  ◌++◌, ◌==◌, ◌||◌, ◌∷◌,
}

pub record FullMessage : Type 0 where
  pub from : Text
  pub to : Text
  pub cc : Text
  pub subject : Text
  pub date : Text
  pub message_id : Text
  pub references : Text
  pub text_body : Text
  pub html_body : Text

pub record Address : Type 0 where
  pub name : Text
  pub address : Text

-- netmail.ParseAddress and ParseAddressList
pub record Parser : Type 0 where
  pub parse_address : Text → Option Address
  pub parse_address_list : Text → Option (List Address)

pub record ComposeData : Type 0 where
  pub to : Text
  pub cc : Text
  pub subject : Text
  pub body : Text
  pub in_reply_to : Text
  pub references : Text

abbrev pub no_compose_data : ComposeData
no_compose_data = record {
  to = [];
  cc = [];
  subject = [];
  body = [];
  in_reply_to = [];
  references = [];
}

-- ensurePrefix
unfoldable pub ensure_prefix : Text → Text → Text
unfolding has_prefix to_lower trim_space
ensure_prefix subject prefix =
    if has_prefix (to_lower (trim_space subject)) (to_lower (trim_space prefix))
    then subject
    else prefix ++ subject

-- appendReference
unfoldable pub append_reference : Text → Text → Text
append_reference references message_id =
    if is_nil message_id
    then references
    else if is_nil references
    then message_id
    else references ++ b' ' ∷ message_id

unfoldable pub quote_lines : List Text → Text
unfolding trim_right
quote_lines [] = []
quote_lines (line ∷ lines) = codes "> " ++ trim_right (λ c. c == 13) line ++ 10 ∷ quote_lines lines

-- quoteBody
unfoldable pub quote_body : FullMessage → Text
unfolding quote_lines split_at_byte
quote_body m =
    let text =
      if is_nil m.text_body && not (is_nil m.html_body)
      then codes "(original message was HTML-only)"
      else m.text_body in
    codes "On "
    ++ m.date
    ++ codes ", "
    ++ m.from
    ++ codes " wrote:"
    ++ 10 ∷ quote_lines (split_at_byte 10 text)

-- forwardBody
unfoldable pub forward_body : FullMessage → Text
forward_body m =
    codes "---------- Forwarded message ----------"
    ++ 10
      ∷ (codes "From: "
          ++ m.from
          ++ 10
            ∷ (codes "Date: "
                ++ m.date
                ++ 10
                  ∷ (codes "Subject: "
                      ++ m.subject
                      ++ 10
                        ∷ (codes "To: "
                            ++ m.to
                            ++ 10
                              ∷ 10
                              ∷ (if not (is_nil m.text_body)
                                  then m.text_body
                                  else if not (is_nil m.html_body)
                                  then codes
                                      "(original message was HTML-only; open it directly to view)"
                                  else [])))))

module _ (p : Parser) where
  -- extractAddr
  unfoldable pub extract_addr : Text → Text
  extract_addr s = elim (p.parse_address s) [ none ↦ s | some a ↦ a.address ]

  abbrev pub shown : Address → Text
  shown a = if is_nil a.name then a.address else a.name ++ codes " <" ++ a.address ++ codes ">"

  -- splitAddressList
  unfoldable pub split_address_list : List Text → List Text
  unfolding join
  split_address_list lists = elim (p.parse_address_list (join lists (codes ", "))) [
    | none ↦ []
    | some l ↦ map shown l
  ]

  abbrev pub same_person : Text → Text → Bool
  same_person a b = to_lower (extract_addr a) == to_lower (extract_addr b)

  -- The members of replyAllCc: neither the user nor the sender.
  unfoldable pub reply_all_kept : Text → FullMessage → List Text
  unfolding extract_addr split_address_list keep to_lower
  reply_all_kept self m =
      keep (λ a. not (same_person a self || same_person a m.from))
        (split_address_list (m.to ∷ m.cc ∷ []))

  -- replyAllCc
  unfoldable pub reply_all_cc : Text → FullMessage → Text
  unfolding reply_all_kept join
  reply_all_cc self m = join (reply_all_kept self m) (codes ", ")

  -- fillComposeDefaults, from the blank form
  unfoldable pub fill_compose_defaults : Text → Text → FullMessage → ComposeData
  unfolding reply_all_cc ensure_prefix quote_body append_reference forward_body
  fill_compose_defaults self mode m =
      if mode == codes "reply" || mode == codes "replyall"
      then record {
        to = m.from;
        cc = if mode == codes "replyall" then reply_all_cc self m else [];
        subject = ensure_prefix m.subject (codes "Re: ");
        body = quote_body m;
        in_reply_to = m.message_id;
        references = append_reference m.references m.message_id;
      }
      else if mode == codes "forward"
      then record no_compose_data {
        subject = ensure_prefix m.subject (codes "Fwd: ");
        body = forward_body m;
      }
      else no_compose_data

-- sanitizeHeaderValue
unfoldable pub sanitize_header_value : Text → Text
unfolding replace_byte
sanitize_header_value s = replace_byte 10 (codes " ") (replace_byte 13 (codes " ") s)

-- strings.ReplaceAll of CR LF by LF
unfoldable pub drop_cr : Text → Text
drop_cr [] = []
drop_cr (c ∷ []) = c ∷ []
drop_cr (c ∷ d ∷ s) =
    let pair = drop_cr s in
    let rest = drop_cr (d ∷ s) in if c == 13 && d == 10 then 10 ∷ pair else c ∷ rest

-- toCRLF
unfoldable pub to_crlf : Text → Text
unfolding drop_cr replace_byte
to_crlf s = replace_byte 10 (13 ∷ 10 ∷ []) (drop_cr s)

pub record Attachment : Type 0 where
  pub filename : Text
  pub content_type : Text
  pub content : Text

-- The form's fields; the files are none where one of them cannot be read.
pub record Form : Type 0 where
  pub fields : ComposeData
  pub attachments : Option (List Attachment)

-- What buildOutgoingMessage is given.
pub record Draft : Type 0 where
  pub to : List Address
  pub cc : List Address
  pub subject : Text
  pub body : Text
  pub in_reply_to : Text
  pub references : Text
  pub attachments : List Attachment

pub data Reply : Type 0 where
  too_large no_recipient bad_to bad_cc bad_attachment build_failed send_failed to_sent : Reply

-- The values that reach a header.
unfoldable pub sanitized : ComposeData → ComposeData
unfolding sanitize_header_value trim_space
sanitized d = record {
  to = sanitize_header_value (trim_space d.to);
  cc = sanitize_header_value (trim_space d.cc);
  subject = sanitize_header_value d.subject;
  body = d.body;
  in_reply_to = sanitize_header_value d.in_reply_to;
  references = sanitize_header_value d.references;
}

-- The addresses of Cc; a blank field has none.
unfoldable pub cc_addresses : Parser → Text → Option (List Address)
cc_addresses p [] = some []
cc_addresses p (c ∷ s) = p.parse_address_list (c ∷ s)

-- handleComposeSubmit up to the message's building
pub data Prepared : Type 0 where
  rejected : Reply → Prepared
  ready : Draft → Prepared

unfoldable pub prepare : Parser → Form → Prepared
unfolding sanitized cc_addresses
prepare p form =
    let d = sanitized form.fields in
    if is_nil d.to then rejected no_recipient else elim (p.parse_address_list d.to) [
      | none ↦ rejected bad_to
      | some to ↦ elim (cc_addresses p d.cc) [
        | none ↦ rejected bad_cc
        | some cc ↦ elim form.attachments [
          | none ↦ rejected bad_attachment
          | some files ↦ ready (record {
            to = to;
            cc = cc;
            subject = d.subject;
            body = d.body;
            in_reply_to = d.in_reply_to;
            references = d.references;
            attachments = files;
          })
        ]
      ]
    ]
