-- ===== src/Imap/Search.antt =====
-- internal/imapbackend/message.go and mailbox.go: SEARCH. The mail library's reading of a message is
-- an argument: its entity, the decoded fields of a key and the date of its header; and so is the day
-- of a time. A time of 0 is Go's zero time.
pub mod Results
mod Tests
use mailroom.Prelude.{
  Bool, List, Option, Text, [], all, any, contains, false, has_prefix, codes, if◌then◌else◌, is_nil,
  ltb, map, nat_eq, none, not, some, suc, text_eq, to_lower, true, ℕ, ◌&&◌, ◌+◌, ◌++◌, ◌==◌, ◌||◌,
  ◌∷◌,
}
use mailroom.Imap.{Message}
use mailroom.Imap.Flags.{has_flag}
use mailroom.Imap.Session.{NumSet, View, seq_set, uid_set, search_res, static_num_set}

-- A part that cannot be read stands as `broken`; a body that cannot be is `none`.
mutual
  pub data Entity : Type 0 where
    single : (fields : List Text) → (content_type : Option Text) → (body : Option Text) → Entity
    multipart : (fields : List Text) → Parts → Entity

  pub data Parts : Type 0 where
    last broken : Parts
    part : Entity → Parts → Parts

-- matchHeaderFields, over the values of the fields
unfoldable pub match_header_fields : List Text → Text → Bool
unfolding any contains to_lower
match_header_fields fields pattern =
    if is_nil pattern
    then not (is_nil fields)
    else any (λ v. contains (to_lower v) (to_lower pattern)) fields

-- The end of matchEntity, for an entity of one part.
unfoldable pub match_body : Text → Option Text → Option Text → Bool
unfolding has_prefix contains to_lower
match_body pattern none body = false
match_body pattern (some t) none = false
match_body pattern (some t) (some buf) =
    (has_prefix t (codes "text/") || has_prefix t (codes "message/"))
    && contains (to_lower buf) (to_lower pattern)

-- matchEntity and its loop over the parts, for a pattern that is not empty
unfoldable mutual
  unfolding match_header_fields match_body

  pub match_filled : Text → Bool → Entity → Bool
  match_filled pattern include_header (single fields t body) =
      (include_header && match_header_fields fields pattern) || match_body pattern t body
  match_filled pattern include_header (multipart fields parts) =
      (include_header && match_header_fields fields pattern)
      || match_parts pattern include_header parts

  pub match_parts : Text → Bool → Parts → Bool
  match_parts pattern include_header last = false
  match_parts pattern include_header broken = false
  match_parts pattern include_header (part e parts) =
      match_filled pattern include_header e || match_parts pattern include_header parts

unfoldable pub match_entity : Text → Bool → Entity → Bool
unfolding match_filled
match_entity pattern include_header e =
    if is_nil pattern then true else match_filled pattern include_header e

-- matchDate; `day` is the time's day at midnight.
unfoldable pub match_date : (ℕ → ℕ) → ℕ → ℕ → ℕ → Bool
match_date day t since before =
    (since == 0 || not (ltb (day t) since)) && (before == 0 || ltb (day t) before)

-- The fields of a SearchCriteria that hold no criteria.
pub record Basic : Type 0 where
  pub seq_num : List NumSet
  pub uid : List NumSet
  pub since : ℕ
  pub before : ℕ
  pub flag : List Text
  pub not_flag : List Text
  pub larger : ℕ
  pub smaller : ℕ
  pub header : List (Text × Text)
  pub sent_since : ℕ
  pub sent_before : ℕ
  pub text : List Text
  pub body : List Text

mutual
  pub data Criteria : Type 0 where
    criteria : Basic → Nots → Ors → Criteria

  pub data Nots : Type 0 where
    no_nots : Nots
    not_also : Criteria → Nots → Nots

  pub data Ors : Type 0 where
    no_ors : Ors
    or_also : Criteria → Criteria → Ors → Ors

-- What the mail library reads of a message.
pub record Reading : Type 0 where
  pub entity : Entity
  pub fields_by_key : Text → List Text
  pub date : Option ℕ

abbrev in_ranges : View → ℕ → NumSet → Bool
in_ranges v n (seq_set ranges) = v.contains ranges n
in_ranges v n (uid_set ranges) = v.contains ranges n
in_ranges v n search_res = false

module _ (v : View) (day : ℕ → ℕ) where
  -- The conditions of search on the message alone, up to Not and Or.
  unfoldable pub search_basic : ℕ → Message → Reading → Basic → Bool
  unfolding all has_flag match_header_fields match_entity match_date
  search_basic seq_num m r c =
      all (λ set. not (seq_num == 0) && in_ranges v seq_num set) c.seq_num
      && all (in_ranges v m.uid) c.uid
      && match_date day m.date c.since c.before
      && all (λ flag. has_flag flag m.flags) c.flag
      && all (λ flag. not (has_flag flag m.flags)) c.not_flag
      && (c.larger == 0 || ltb c.larger m.size)
      && (c.smaller == 0 || ltb m.size c.smaller)
      && all (λ field. match_header_fields (r.fields_by_key field.0) field.1) c.header
      && ((c.sent_since == 0 && c.sent_before == 0) || (elim r.date as (λ _. Bool) [
        | none ↦ false
        | some t ↦ match_date day t c.sent_since c.sent_before
      ]))
      && all (λ pattern. match_entity pattern true r.entity) c.text
      && all (λ pattern. match_entity pattern false r.entity) c.body

  -- search
  unfoldable mutual
    unfolding search_basic

    pub search : ℕ → Message → Reading → Criteria → Bool
    search seq_num m r (criteria c nots ors) =
        search_basic seq_num m r c && search_nots seq_num m r nots && search_ors seq_num m r ors

    pub search_nots : ℕ → Message → Reading → Nots → Bool
    search_nots seq_num m r no_nots = true
    search_nots seq_num m r (not_also c nots) =
        not (search seq_num m r c) && search_nots seq_num m r nots

    pub search_ors : ℕ → Message → Reading → Ors → Bool
    search_ors seq_num m r no_ors = true
    search_ors seq_num m r (or_also c d ors) =
        (search seq_num m r c || search seq_num m r d) && search_ors seq_num m r ors

pub data NumKind : Type 0 where
  by_seq by_uid : NumKind

pub record SearchData : Type 0 where
  pub low : ℕ
  pub high : ℕ
  pub count : ℕ
  pub numbers : List ℕ
  pub uids : List ℕ

abbrev pub no_data : SearchData
no_data = record { low = 0; high = 0; count = 0; numbers = []; uids = [] }

-- Min, Max and Count of the data with one more number.
unfoldable pub add_number : ℕ → SearchData → SearchData
add_number num d = record d {
  low = if d.low == 0 || ltb num d.low then num else d.low;
  high = if d.high == 0 || ltb d.high num then num else d.high;
  count = suc d.count;
  numbers = d.numbers ++ num ∷ [];
}

-- What a message that matches adds: a session knows some messages under no number yet.
unfoldable pub add_match : NumKind → ℕ → Message → SearchData → SearchData
unfolding add_number
add_match by_uid seq_num m d = add_number m.uid (record d { uids = d.uids ++ m.uid ∷ [] })
add_match by_seq seq_num m d =
    let d1 : SearchData = record d { uids = d.uids ++ m.uid ∷ [] } in
    if seq_num == 0 then d1 else add_number seq_num d1

-- The loop of Search; `hits` says which messages match, and `i` stand before the list.
unfoldable pub search_all :
    View → NumKind → (ℕ → Message → Bool) → ℕ → List Message → SearchData → SearchData
unfolding add_match
search_all v kind hits i [] d = d
search_all v kind hits i (m ∷ ms) d =
    let seq_num = v.encode (i + 1) in
    search_all v kind hits (i + 1) ms (if hits seq_num m then add_match kind seq_num m d else d)

-- staticSearchCriteria, of one set: "$" in place of sequence numbers is a set of UIDs.
unfoldable pub static_basic : List (ℕ × ℕ) → List Message → Basic → Basic
unfolding static_num_set
static_basic saved ms c =
    let sets = map (static_num_set saved ms) c.seq_num in
    record c {
      seq_num = seq_sets sets;
      uid = map (static_num_set saved ms) (c.uid ++ uid_sets sets);
    }
  where
    seq_sets : List NumSet → List NumSet
    seq_sets [] = []
    seq_sets (seq_set r ∷ sets) = seq_set r ∷ seq_sets sets
    seq_sets (_ ∷ sets) = seq_sets sets

    uid_sets : List NumSet → List NumSet
    uid_sets [] = []
    uid_sets (uid_set r ∷ sets) = uid_set r ∷ uid_sets sets
    uid_sets (_ ∷ sets) = uid_sets sets

unfoldable mutual
  unfolding static_basic

  pub static_criteria : List (ℕ × ℕ) → List Message → Criteria → Criteria
  static_criteria saved ms (criteria c nots ors) =
      criteria (static_basic saved ms c) (static_nots saved ms nots) (static_ors saved ms ors)

  pub static_nots : List (ℕ × ℕ) → List Message → Nots → Nots
  static_nots saved ms no_nots = no_nots
  static_nots saved ms (not_also c nots) =
      not_also (static_criteria saved ms c) (static_nots saved ms nots)

  pub static_ors : List (ℕ × ℕ) → List Message → Ors → Ors
  static_ors saved ms no_ors = no_ors
  static_ors saved ms (or_also c d ors) =
      or_also (static_criteria saved ms c) (static_criteria saved ms d) (static_ors saved ms ors)

-- Search; `read` is what the library reads of a message, an empty one where the file is missing.
unfoldable pub search_mailbox :
    View
    → (ℕ → ℕ)
    → (Message → Reading)
    → NumKind
    → List (ℕ × ℕ)
    → Criteria
    → List Message
    → SearchData
unfolding search static_criteria search_all
search_mailbox v day read kind saved c ms =
    let fixed = static_criteria saved ms c in
    search_all v kind (λ seq_num m. search v day seq_num m (read m) fixed) 0 ms no_data
