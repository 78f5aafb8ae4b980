-- ===== src/Imap/Folder/Moving.antt =====
-- internal/imapbackend/webapi.go: moving a message.
use mailroom.Prelude.{
  Lacks, ◌∙◌, Option, Text, [], inl, inr, length, nat_eq, none, refl, some, text_eq, ℕ, ◌++◌, ◌∷◌,
  ◌≡◌, ◌⊎◌,
}
use mailroom.Maildir.{
  Error, Faults, Maildir, Result, deliver, err, file, ok, open_message, remove_message, set_flags,
}
use mailroom.Maildir.Bodies.{IsFresh, Keeps, body_of, deliver-Keeps, set_flags-Keeps}
use mailroom.Maildir.Lookup.{IsMaildir}
use mailroom.Maildir.Removal.{remove_message-Keeps}
use mailroom.Store.{Db, Result-cases}
use mailroom.Store.Messages.{insert_message}
use mailroom.Imap.{Answer, Failure, Message, done, failed}
use mailroom.Imap.Flags.{FlagNames, FlagSet, maildir_letters_from_flag_list}
use mailroom.Imap.Mailbox.{find_by_uid}
use mailroom.Imap.Folder.{Folder, after_copy, append_bytes, take_out, move_to, write_flags}

-- The copy is whole: its text is the file of its name, and it is the last of the folder's list; the
-- files of all other names are as they were.
pub record Copied (now : ℕ) (name buf : Text) (dest dest1 : Folder) : Type 0 where
  pub body : body_of name dest1.maildir ≡ some (file buf now)
  pub rest : Keeps dest.maildir dest1.maildir name
  pub listed :
      (m : Message) × (dest1.mailbox.messages ≡ dest.mailbox.messages ++ m ∷ [])
      × (m.key ≡ name)
      × (m.size ≡ length buf)

pub answer_cases : (r : Answer (Unit {0})) → ((e : Failure) × (r ≡ failed e)) ⊎ (r ≡ done tt)
answer_cases (failed e) = inl (e, refl)
answer_cases (done tt) = inr refl

pub unit_cases : (r : Result (Unit {0})) → ((e : Error) × (r ≡ err e)) ⊎ (r ≡ ok tt)
unit_cases (err e) = inl (e, refl)
unit_cases (ok tt) = inr refl

write_flags-Keeps :
    (names : FlagNames) (f : Faults) (now : ℕ) (name : Text) (flags : FlagSet) (key : Text) (mb : ℕ)
    (md : Maildir) (db : Db)
    → Lacks b':' key
    → IsMaildir md
    → let md1 = (write_flags names f now name flags key mb md db).0 in
      IsMaildir md1 × ((other : Text) → body_of other md1 ≡ body_of other md)
unfolding write_flags
write_flags-Keeps names f now name [] key mb md db h v = (v, λ other. refl)
write_flags-Keeps names f now name (g ∷ flags) key mb md db h v =
    let letters = maildir_letters_from_flag_list names (g ∷ flags) in
    let kept = set_flags-Keeps f key letters md h v in
    elim (unit_cases (set_flags f key letters md).1) [
      | inl (e, q) ↦ rw (write_flags, q) kept
      | inr q ↦ rw (write_flags, q) kept
    ]

pub maildir_cases : (r : Result Text) → ((e : Error) × (r ≡ err e)) ⊎ ((key : Text) × (r ≡ ok key))
maildir_cases (err e) = inl (e, refl)
maildir_cases (ok key) = inr (key, refl)

-- What appending leaves: nobody else's file is touched, and on success the copy is whole.
pub record Appended (now : ℕ) (name buf : Text) (dest dest1 : Folder) (answer : Answer ℕ)
    : Type 0 where
  pub rest : Keeps dest.maildir dest1.maildir name
  pub outcome :
      ((e : Failure) × (answer ≡ failed e) × (dest1.mailbox ≡ dest.mailbox))
      ⊎ ((uid : ℕ) × (answer ≡ done uid) × Copied now name buf dest dest1)

pub append_bytes-Appended :
    (names : FlagNames) (f : Faults) (now : ℕ) (name buf : Text) (date : Option ℕ) (flags : FlagSet)
    (dest : Folder) (db : Db)
    → IsFresh name dest.maildir
    → IsMaildir dest.maildir
    → let ((dest1, _), answer) = append_bytes names f now name buf date flags (dest, db) in
      Appended now name buf dest dest1 answer
unfolding append_bytes
append_bytes-Appended names f now name buf date flags dest db u v =
    let mb = dest.mailbox.db_id in
    let delivery = deliver f name now buf dest.maildir in
    let letters = maildir_letters_from_flag_list names flags in
    let t : ℕ = elim date [ none ↦ now | some d ↦ d ] in
    let indexing = insert_message mb name letters t (length buf) db in
    let (kept, outcome) = deliver-Keeps f name buf now dest.maildir u v in
    elim outcome [
      | inl (e, q) ↦ rw (append_bytes, q) (record { rest = kept; outcome = inl (_, refl, refl) })
      | inr (q, body) ↦ elim (Result-cases indexing.1) [
        | inl (e, i) ↦
            rw (append_bytes, q, i) (record { rest = kept; outcome = inl (_, refl, refl) })
        | inr (uid, i) ↦
            let flagging = write_flags names f now name flags name mb delivery.0 indexing.0 in
            let (valid, same) =
              write_flags-Keeps names f now name flags name mb delivery.0 indexing.0 u.plain
                kept.valid in
            let kept1 : Keeps dest.maildir flagging.0 name = record {
              valid = valid;
              others = λ k apart. same k ∙ kept.others k apart;
            } in
            elim (answer_cases flagging.2) [
              | inl (e, w) ↦
                  rw (append_bytes, q, i, w)
                    (record { rest = kept1; outcome = inl (_, refl, refl) })
              | inr w ↦
                  rw (append_bytes, q, i, w)
                    (record {
                      rest = kept1;
                      outcome = inr (
                        uid,
                        refl,
                        record {
                          body = same name ∙ body;
                          rest = kept1;
                          listed = (_, refl, refl, refl);
                        },
                      );
                    })
            ]
      ]
    ]

take_out-Keeps :
    (f : Faults) (msg : Message) (src : Folder) (db : Db)
    → IsMaildir src.maildir
    → Keeps src.maildir (take_out f msg (src, db)).0.0.maildir msg.key
unfolding take_out
take_out-Keeps f msg src db v =
    let kept = remove_message-Keeps f msg.key src.maildir v in
    elim (unit_cases (remove_message f msg.key src.maildir).1) [
      | inl (e, q) ↦ rw (take_out, q) kept
      | inr q ↦ rw (take_out, q) kept
    ]

-- No move loses a message: whatever fails, the source's Maildir is as it was, or the message's whole
-- text is a file of the other folder and stands at the end of its list. The files of all other keys
-- are as they were in both folders. The new name is one that no message of the other folder has, and
-- in each folder a key names one message.
pub move_to-Copied :
    (names : FlagNames) (f : Faults) (now : ℕ) (name : Text) (uid : ℕ) (src dest : Folder) (db : Db)
    (msg : Message) (buf : Text)
    → find_by_uid uid src.mailbox.messages ≡ some msg
    → open_message f msg.key src.maildir ≡ ok buf
    → IsFresh name dest.maildir
    → IsMaildir dest.maildir
    → IsMaildir src.maildir
    → let (folders, answer) = move_to names f now name uid (src, dest, db) in
      Keeps src.maildir folders.0.maildir msg.key
      × Keeps dest.maildir folders.1.maildir name
      × ((folders.0.maildir ≡ src.maildir) ⊎ Copied now name buf dest folders.1)
unfolding move_to
move_to-Copied names f now name uid src dest db msg buf there read u v w =
    rw (move_to, there, read)
      (after_copy-Copied (append_bytes names f now name buf (some msg.date) msg.flags (dest, db))
        (append_bytes-Appended names f now name buf (some msg.date) msg.flags dest db u v))
  where
    after_copy-Copied :
        (r : (Folder × Db) × Answer ℕ)
        → Appended now name buf dest r.0.0 r.1
        → let (folders, answer) = after_copy f msg src r in
          Keeps src.maildir folders.0.maildir msg.key
          × Keeps dest.maildir folders.1.maildir name
          × ((folders.0.maildir ≡ src.maildir) ⊎ Copied now name buf dest folders.1)
    after_copy-Copied ((dest1, db1), failed e) a =
        (record { valid = w; others = λ k apart. refl }, a.rest, inl refl)
    after_copy-Copied ((dest1, db1), done u) a = elim a.outcome [
      | inl (e, q, _) ↦ cc q
      | inr (uid, q, copied) ↦ (take_out-Keeps f msg src db1 w, a.rest, inr copied)
    ]
