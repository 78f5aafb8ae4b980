-- ===== src/Imap/Session/Copying.antt =====
-- internal/imapbackend/session.go: what COPY and MOVE leave in the two folders.
use mathlib.Core.List.{append_assoc, append-nil}
use mailroom.Prelude.{
  All, arith, false, map, ◌==◌, text_beq_iff, List, Option, Text, [], inl, inr, length, nat_eq,
  none, refl, some, sym, ap, suc, keep, not, text_eq, ℕ, ◌++◌, ◌∙◌, ◌∷◌, ◌≡◌, ◌⊎◌,
}
use mailroom.Maildir.{Faults, Maildir, Node, Place, file, ok, open_message, remove_message}
use mailroom.Maildir.Bodies.{IsFresh, Keeps, body_of}
use mailroom.Maildir.Lookup.{IsMaildir, node_in, place_of}
use mailroom.Maildir.Removal.{remove_message-Keeps}
use mailroom.Store.{Db}
use mailroom.Store.Messages.{delete_message_by_key}
use mailroom.Imap.{Answer, Failure, Message, done, failed}
use mailroom.Imap.Flags.{FlagNames}
use mailroom.Imap.Folder.{Folder, append_bytes}
use mailroom.Imap.Folder.Moving.{answer_cases, append_bytes-Appended, maildir_cases, unit_cases}
use mailroom.Imap.Mailbox.{Mailbox}
use mailroom.Imap.Mailbox.Expunge.{expunge_locked_lem}
use mailroom.Imap.Session.{
  NumSet, View, cons_pair, copy, copy_all, finish_move, for_each, move, one_of, remove_moved,
}

-- The copies are of the first messages in order: each has the text that the source's file has, under
-- its own new name, and that text is in the file of the name.
abbrev pub Copies :
    Faults → ℕ → (Message → Text) → Folder → Maildir → List Message → List Message → Type 0
Copies f now unique src md ms [] = Unit
Copies f now unique src md [] (c ∷ copies) = ⊥
Copies f now unique src md (m ∷ ms) (c ∷ copies) =
    ((buf : Text) × (open_message f m.key src.maildir ≡ ok buf)
      × (c.size ≡ length buf)
      × (c.key ≡ unique m)
      × (body_of (unique m) md ≡ some (file buf now)))
    × Copies f now unique src md ms copies

-- The new names are fresh and differ from one another.
abbrev pub FreshNames : (Message → Text) → Maildir → List Message → Type 0
FreshNames unique md [] = Unit
FreshNames unique md (m ∷ ms) =
    IsFresh (unique m) md × All (λ n. (unique n == unique m) ≡ false) ms × FreshNames unique md ms

-- The Maildir is valid, and the files of all names but those are as they were.
pub record KeepsAll (m m1 : Maildir) (taken : List Text) : Type 0 where
  pub valid : IsMaildir m1
  pub others : (k : Text) → All (λ name. (name == k) ≡ false) taken → body_of k m1 ≡ body_of k m

pub record CopiedAll (f : Faults) (now : ℕ) (unique : Message → Text) (src : Folder)
    (chosen : List Message) (dest dest1 : Folder) (answer : Answer (List (ℕ × ℕ))) : Type 0 where
  pub copies : List Message
  pub list : dest1.mailbox.messages ≡ dest.mailbox.messages ++ copies
  pub each : Copies f now unique src dest1.maildir chosen copies
  pub rest : KeepsAll dest.maildir dest1.maildir (map unique chosen)
  pub whole : ((e : Failure) × (answer ≡ failed e)) ⊎ (length copies ≡ length chosen)

eq_comm : (a b : Text) → (a == b) ≡ false → (b == a) ≡ false
eq_comm a b h = ground (arith, h, text_beq_iff a b, text_beq_iff b a)

-- A name stays fresh while another one is written.
IsFresh-Keeps :
    (m m1 : Maildir) (name other : Text)
    → Keeps m m1 name
    → (other == name) ≡ false
    → IsFresh other m
    → IsFresh other m1
IsFresh-Keeps m m1 name other kept apart u =
    let same = kept.others other (eq_comm other name apart) in
    record {
      plain = u.plain;
      own = u.own;
      unused = no_body (place_of other m1) (same ∙ ap node_in u.unused);
    }
  where
    no_body : (p : Option (Place × Text × Node)) → node_in p ≡ none → p ≡ none
    no_body none h = refl
    no_body (some p) h = cc h

FreshNames-Keeps :
    (unique : Message → Text) (m m1 : Maildir) (name : Text) (ms : List Message)
    → Keeps m m1 name
    → All (λ n. (unique n == name) ≡ false) ms
    → FreshNames unique m ms
    → FreshNames unique m1 ms
FreshNames-Keeps unique m m1 name [] kept apart u = tt
FreshNames-Keeps unique m m1 name (n ∷ ms) kept (a, apart) (u, d, us) = (
  IsFresh-Keeps m m1 name (unique n) kept a u,
  d,
  FreshNames-Keeps unique m m1 name ms kept apart us,
)

map-All :
    (unique : Message → Text) (k : Text) (ms : List Message)
    → All (λ n. (unique n == k) ≡ false) ms
    → All (λ name. (name == k) ≡ false) (map unique ms)
map-All unique k [] h = tt
map-All unique k (m ∷ ms) (a, h) = (a, map-All unique k ms h)

uid_cases : (r : Answer ℕ) → ((e : Failure) × (r ≡ failed e)) ⊎ ((uid : ℕ) × (r ≡ done uid))
uid_cases (failed e) = inl (e, refl)
uid_cases (done uid) = inr (uid, refl)

one_more :
    (r : Answer (List (ℕ × ℕ))) (p : ℕ × ℕ) (n k : ℕ)
    → ((e : Failure) × (r ≡ failed e)) ⊎ (n ≡ k)
    → ((e : Failure) × (cons_pair p r ≡ failed e)) ⊎ (suc n ≡ suc k)
one_more r p n k (inl (e, q)) = inl (e, ap (cons_pair p) q)
one_more r p n k (inr q) = inr (ap suc q)

all_copied :
    (pairs : List (ℕ × ℕ)) (n k : ℕ)
    → ((e : Failure) × (◌≡◌ {A = Answer (List (ℕ × ℕ))} (done pairs) (failed e))) ⊎ (n ≡ k)
    → n ≡ k
all_copied pairs n k (inl (e, q)) = cc q
all_copied pairs n k (inr q) = q

module _ (names : FlagNames) (f : Faults) (now : ℕ) (unique : Message → Text) (src : Folder) where
  -- Whatever fails, what COPY has added to the other folder are the first of the messages.
  copy_all-CopiedAll :
      (ms : List Message) (dest : Folder) (db : Db)
      → FreshNames unique dest.maildir ms
      → IsMaildir dest.maildir
      → CopiedAll f now unique src ms dest
          (copy_all names f now unique ms src (dest, db)).0.0
          (copy_all names f now unique ms src (dest, db)).1
  unfolding copy_all
  copy_all-CopiedAll [] dest db u v = record {
    copies = [];
    list = sym (append-nil _);
    each = tt;
    rest = record { valid = v; others = λ k apart. refl };
    whole = inr refl;
  }
  copy_all-CopiedAll (m ∷ ms) dest db (u, apart, us) v =
      elim (maildir_cases (open_message f m.key src.maildir)) [
        | inl (e, unread) ↦
            rw (copy_all, unread)
              (record {
                copies = [];
                list = sym (append-nil _);
                each = tt;
                rest = record { valid = v; others = λ k others. refl };
                whole = inl (_, refl);
              })
        | inr (buf, read) ↦
            let r = append_bytes names f now (unique m) buf (some m.date) m.flags (dest, db) in
            let appended =
              append_bytes-Appended names f now (unique m) buf (some m.date) m.flags dest db u v in
            elim appended.outcome [
              | inl (e, q, same) ↦
                  rw (copy_all, read, q)
                    (record {
                      copies = [];
                      list = ap (λ (x : Mailbox). x.messages) same ∙ sym (append-nil _);
                      each = tt;
                      rest = record {
                        valid = appended.rest.valid;
                        others = λ k others. appended.rest.others k others.0;
                      };
                      whole = inl (_, refl);
                    })
              | inr (uid, q, copied) ↦
                  let (c, last, key, size) = copied.listed in
                  let more =
                    copy_all-CopiedAll ms r.0.0 r.0.1
                      (FreshNames-Keeps unique dest.maildir r.0.0.maildir (unique m) ms
                        appended.rest apart us)
                      appended.rest.valid in
                  let stays =
                    more.rest.others (unique m) (map-All unique (unique m) ms apart)
                    ∙ copied.body in
                  rw (copy_all, read, q)
                    (record {
                      copies = c ∷ more.copies;
                      list =
                          more.list
                          ∙ ap (λ l. l ++ more.copies) last
                          ∙ append_assoc dest.mailbox.messages (c ∷ []) more.copies;
                      each = ((buf, read, size, key, stays), more.each);
                      rest = record {
                        valid = more.rest.valid;
                        others = λ k others.
                            more.rest.others k others.1 ∙ appended.rest.others k others.0;
                      };
                      whole = one_more _ (m.uid, uid) _ _ more.whole;
                    })
            ]
      ]

-- COPY adds to the end of the other folder's list the copies of the first of the messages that the
-- numbers name, in their order, each with the whole text of its message in a file of its own name,
-- where the new names are fresh and differ. The files of other names stay. An answer without an error
-- means that all of them are there; what was copied before an error stays.
copy-CopiedAll :
    (names : FlagNames) (f : Faults) (now : ℕ) (unique : Message → Text) (v : View)
    (saved : List (ℕ × ℕ)) (set : NumSet) (src dest : Folder) (db : Db)
    → FreshNames unique dest.maildir (for_each v saved set src.mailbox.messages)
    → IsMaildir dest.maildir
    → let ((dest1, _), answer) = copy names f now unique v saved set src (dest, db) in
      CopiedAll f now unique src (for_each v saved set src.mailbox.messages) dest dest1 answer
unfolding copy
copy-CopiedAll names f now unique v saved set src dest db u valid =
    copy_all-CopiedAll names f now unique src (for_each v saved set src.mailbox.messages) dest db u
      valid

abbrev key_of_message : Message → Text
key_of_message m = m.key

remove_moved-KeepsAll :
    (f : Faults) (ms : List Message) (src : Folder) (db : Db)
    → IsMaildir src.maildir
    → KeepsAll src.maildir (remove_moved f ms (src, db)).0.0.maildir (map key_of_message ms)
unfolding remove_moved
remove_moved-KeepsAll f [] src db v = record { valid = v; others = λ k apart. refl }
remove_moved-KeepsAll f (m ∷ ms) src db v =
    let kept = remove_message-Keeps f m.key src.maildir v in
    let src1 : Folder = record src { maildir = (remove_message f m.key src.maildir).0 } in
    let rest =
      remove_moved-KeepsAll f ms src1 (delete_message_by_key src.mailbox.db_id m.key db)
        kept.valid in
    elim (unit_cases (remove_message f m.key src.maildir).1) [
      | inl (e, q) ↦
          rw (remove_moved, q)
            (record { valid = kept.valid; others = λ k apart. kept.others k apart.0 })
      | inr q ↦
          rw (remove_moved, q)
            (record {
              valid = rest.valid;
              others = λ k apart. rest.others k apart.1 ∙ kept.others k apart.0;
            })
    ]

-- What a move leaves: the copies in their files, and a source that is as it was until all of them are
-- made and that keeps the files of the messages that are not moved.
pub record Moved (f : Faults) (now : ℕ) (unique : Message → Text)
    (order : List Message → List Message) (chosen : List Message) (src dest : Folder)
    (src1 dest1 : Folder) (answer : Answer (List (ℕ × ℕ) × List ℕ)) : Type 0 where
  pub copies : List Message
  pub list : dest1.mailbox.messages ≡ dest.mailbox.messages ++ copies
  pub each : Copies f now unique src dest1.maildir chosen copies
  pub rest : KeepsAll dest.maildir dest1.maildir (map unique chosen)
  pub kept : (src1 ≡ src) ⊎ (length copies ≡ length chosen)
  pub stay : KeepsAll src.maildir src1.maildir (map key_of_message (order chosen))
  pub whole :
      ((e : Failure) × (answer ≡ failed e))
      ⊎ ((length copies ≡ length chosen)
          × (src1.mailbox.messages ≡ keep (λ m. not (one_of chosen m)) src.mailbox.messages))

module _ (f : Faults) (now : ℕ) (unique : Message → Text) (order : List Message → List Message)
    (chosen : List Message) (src dest dest1 : Folder) (db : Db) (v : IsMaildir src.maildir) where
  finish_move-Moved :
      (encode : List ℕ → ℕ → ℕ) (answer : Answer (List (ℕ × ℕ)))
      → CopiedAll f now unique src chosen dest dest1 answer
      → let ((src1, dest2, _), reply) =
          finish_move f encode order chosen src ((dest1, db), answer) in
        Moved f now unique order chosen src dest src1 dest2 reply
  unfolding finish_move
  finish_move-Moved encode (failed e) c = record {
    copies = c.copies;
    list = c.list;
    each = c.each;
    rest = c.rest;
    kept = inl refl;
    stay = record { valid = v; others = λ k apart. refl };
    whole = inl (e, refl);
  }
  finish_move-Moved encode (done pairs) c =
      let all = all_copied pairs _ _ c.whole in
      let stay = remove_moved-KeepsAll f (order chosen) src db v in
      elim (answer_cases (remove_moved f (order chosen) (src, db)).1) [
        | inl (e, q) ↦
            rw (finish_move, q)
              (record {
                copies = c.copies;
                list = c.list;
                each = c.each;
                rest = c.rest;
                kept = inr all;
                stay = stay;
                whole = inl (e, refl);
              })
        | inr q ↦
            rw (finish_move, q)
              (record {
                copies = c.copies;
                list = c.list;
                each = c.each;
                rest = c.rest;
                kept = inr all;
                stay = stay;
                whole = inr (all, (expunge_locked_lem (one_of chosen) src.mailbox.messages).0);
              })
      ]

-- MOVE of many messages loses none, whatever fails: the first of them are in the other folder, whose
-- list ends with them and whose files have their whole text, and the source is as it was unless the
-- copies of all are there. The files of all other keys stay in both folders. Without an error the
-- source's list has lost just the messages that the numbers name. The new names are fresh in the
-- other folder and differ from one another, and in each folder a key names one message.
pub move-Moved :
    (names : FlagNames) (f : Faults) (now : ℕ) (unique : Message → Text)
    (order : List Message → List Message) (v : View) (saved : List (ℕ × ℕ)) (set : NumSet)
    (src dest : Folder) (db : Db)
    → FreshNames unique dest.maildir (for_each v saved set src.mailbox.messages)
    → IsMaildir dest.maildir
    → IsMaildir src.maildir
    → let ((src1, dest1, _), answer) = move names f now unique order v saved set (src, dest, db) in
      Moved f now unique order
        (for_each v saved set src.mailbox.messages)
        src
        dest
        src1
        dest1
        answer
unfolding move
move-Moved names f now unique order v saved set src dest db u valid valid_src =
    let chosen = for_each v saved set src.mailbox.messages in
    let ((dest1, db1), answer) = copy_all names f now unique chosen src (dest, db) in
    finish_move-Moved f now unique order chosen src dest dest1 db1 valid_src v.encode_after answer
      (copy_all-CopiedAll names f now unique src chosen dest db u valid)
