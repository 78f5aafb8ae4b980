-- ===== src/Imap/Search/Tests.antt =====
-- Runs of SEARCH: two messages, of which one is seen, and a text in two parts.
use mailroom.Prelude.{
  Bool, List, [], any, arith, codes, contains, false, has_prefix, leb, nat_eq, none, refl, some,
  text_eq, to_lower, true, ℕ, ◌&&◌, ◌∷◌, ◌≡◌, index,
}
use mailroom.Imap.{Message}
use mailroom.Imap.Search.{
  Basic, Criteria, Entity, Reading, SearchData, by_uid, criteria, last, match_entity, multipart,
  no_nots, no_ors, not_also, part, search_mailbox, single,
}
use mailroom.Imap.Search.Results.{IsSummary, search_mailbox-IsSummary}
use mailroom.Imap.Session.{View}

abbrev in_range : ℕ → ℕ × ℕ → Bool
in_range n (low, high) = leb low n && leb n high

abbrev view : View
view = record {
  contains = λ ranges n. any (in_range n) ranges;
  encode = λ n. n;
  encode_after = λ nums n. n;
}

abbrev two_messages : List Message
two_messages =
    record { uid = 3; key = codes "a"; date = 1; size = 2; flags = codes "\\seen" ∷ [] }
    ∷ record { uid = 8; key = codes "b"; date = 1; size = 2; flags = [] }
    ∷ []

abbrev letter : Entity
letter = multipart (codes "Hello" ∷ []) (
    part (single [] (some (codes "image/png")) (some (codes "cat")))
      (part (single [] (some (codes "text/plain")) (some (codes "A Cat sat"))) last))

text_found : match_entity (codes "CAT") false letter ≡ true
unfolding match_entity to_lower contains index has_prefix
text_found = refl

header_found : match_entity (codes "hell") true letter ≡ true
unfolding match_entity to_lower contains index has_prefix any
header_found = refl

abbrev anything : Basic
anything = record {
  seq_num = [];
  uid = [];
  since = 0;
  before = 0;
  flag = [];
  not_flag = [];
  larger = 0;
  smaller = 0;
  header = [];
  sent_since = 0;
  sent_before = 0;
  text = [];
  body = [];
}

abbrev unseen : Criteria
unseen =
    criteria anything
      (not_also (criteria (record anything { flag = codes "\\Seen" ∷ [] }) no_nots no_ors) no_nots)
      no_ors

abbrev reading : Message → Reading
reading m = record { entity = letter; fields_by_key = λ key. []; date = none }

abbrev answer : SearchData
answer = search_mailbox view (λ t. t) reading by_uid [] unseen two_messages

one_unseen : answer.numbers ≡ 8 ∷ []
unfolding search_mailbox
one_unseen = refl

search_mailbox-IsSummary_example : IsSummary answer
search_mailbox-IsSummary_example =
    search_mailbox-IsSummary view (λ t. t) reading by_uid [] unseen two_messages
      (omega arith, (omega arith, tt))
