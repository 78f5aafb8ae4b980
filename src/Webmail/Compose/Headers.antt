-- ===== src/Webmail/Compose/Headers.antt =====
-- internal/webmail/compose_handlers.go: what the fields of the form are before the message is built.
use mailroom.Prelude.{
  All-append, Bool-cases, Lacks, Option-cases, Text, [], arith, codes, false, inl, inr, is_nil,
  nat_eq, nat_beq_iff, refl, replace_byte, some, text_eq, trim_space, ℕ, ◌==◌, ◌∷◌, ◌≡◌, ◌≢◌, subst,
}
use mailroom.Webmail.Compose.{
  Draft, Form, Parser, cc_addresses, prepare, ready, sanitize_header_value, sanitized,
}

replace_byte-Lacks_new :
    (b c : ℕ) (new s : Text) → Lacks c new → Lacks c s → Lacks c (replace_byte b new s)
unfolding replace_byte
replace_byte-Lacks_new b c new [] n h = tt
replace_byte-Lacks_new b c new (d ∷ s) n h = elim (Bool-cases (d == b)) [
  | inl same ↦
      rw (replace_byte, same)
        (All-append (λ x. x ≢ c) new (replace_byte b new s) n
          (replace_byte-Lacks_new b c new s n h.1))
  | inr other ↦ rw (replace_byte, other) (h.0, replace_byte-Lacks_new b c new s n h.1)
]

replace_byte-Lacks : (b : ℕ) (new s : Text) → Lacks b new → Lacks b (replace_byte b new s)
unfolding replace_byte
replace_byte-Lacks b new [] n = tt
replace_byte-Lacks b new (d ∷ s) n = elim (Bool-cases (d == b)) [
  | inl same ↦
      rw (replace_byte, same)
        (All-append (λ x. x ≢ b) new (replace_byte b new s) n (replace_byte-Lacks b new s n))
  | inr other ↦
      rw (replace_byte, other)
        ((λ e. ground (arith, other, nat_beq_iff d b, e)), replace_byte-Lacks b new s n)
]

-- One line: no CR and no LF.
abbrev pub IsLine : Text → Type 0
IsLine s = Lacks 13 s × Lacks 10 s

sanitize_header_value-IsLine : (s : Text) → IsLine (sanitize_header_value s)
unfolding sanitize_header_value
sanitize_header_value-IsLine s = (
  replace_byte-Lacks_new 10 13 (codes " ") (replace_byte 13 (codes " ") s)
      ((λ e. omega (arith, e)), tt)
      (replace_byte-Lacks 13 (codes " ") s ((λ e. omega (arith, e)), tt)),
  replace_byte-Lacks 10 (codes " ") (replace_byte 13 (codes " ") s) ((λ e. omega (arith, e)), tt),
)

-- The subject and the references are lines, the recipients are read from lines, and the rest is the
-- form's.
pub record IsSafe (p : Parser) (form : Form) (d : Draft) : Type 0 where
  pub subject : IsLine d.subject
  pub in_reply_to : IsLine d.in_reply_to
  pub references : IsLine d.references
  pub to : (line : Text) × IsLine line × (line ≢ []) × (p.parse_address_list line ≡ some d.to)
  pub cc : (line : Text) × IsLine line × (cc_addresses p line ≡ some d.cc)
  pub body : d.body ≡ form.fields.body
  pub attachments : form.attachments ≡ some d.attachments

is_nil-filled : (s : Text) → is_nil s ≡ false → s ≢ []
is_nil-filled [] e = cc e
is_nil-filled (c ∷ s) e = λ q. cc q

-- Of a form that is accepted, the subject, In-Reply-To and References that the message is built from
-- have neither CR nor LF in them, and the recipients are those that net/mail reads from such lines, of
-- which To is not blank. The body and the attachments, with their names and types, are taken as they
-- are.
pub prepare-IsSafe :
    (p : Parser) (form : Form) (d : Draft) → prepare p form ≡ ready d → IsSafe p form d
unfolding prepare sanitized
prepare-IsSafe p form d e =
    let fields = form.fields in
    let to_line = sanitize_header_value (trim_space fields.to) in
    let cc_line = sanitize_header_value (trim_space fields.cc) in
    elim (Bool-cases (is_nil to_line)) [
      | inl blank ↦ absurd (cc (rw (prepare, blank) at e))
      | inr filled ↦ elim (Option-cases (p.parse_address_list to_line)) [
        | inl bad ↦ absurd (cc (rw (prepare, filled, bad) at e))
        | inr (to, good) ↦ elim (Option-cases (cc_addresses p cc_line)) [
          | inl bad ↦ absurd (cc (rw (prepare, filled, good, bad) at e))
          | inr (others, fine) ↦ elim (Option-cases form.attachments) [
            | inl bad ↦ absurd (cc (rw (prepare, filled, good, fine, bad) at e))
            | inr (files, read) ↦
                let draft : Draft = record {
                  to = to;
                  cc = others;
                  subject = sanitize_header_value fields.subject;
                  body = fields.body;
                  in_reply_to = sanitize_header_value fields.in_reply_to;
                  references = sanitize_header_value fields.references;
                  attachments = files;
                } in
                let it : draft ≡ d = cc (rw (prepare, filled, good, fine, read) at e) in
                subst (IsSafe p form) it (record {
                  subject = sanitize_header_value-IsLine fields.subject;
                  in_reply_to = sanitize_header_value-IsLine fields.in_reply_to;
                  references = sanitize_header_value-IsLine fields.references;
                  to = (
                    to_line,
                    sanitize_header_value-IsLine (trim_space fields.to),
                    is_nil-filled to_line filled,
                    good,
                  );
                  cc = (cc_line, sanitize_header_value-IsLine (trim_space fields.cc), fine);
                  body = refl;
                  attachments = read;
                })
          ]
        ]
      ]
    ]
