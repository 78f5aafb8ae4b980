-- ===== src/Imap/Mailbox/Reload.antt =====
-- internal/imapbackend/mailbox.go: what reloadLocked makes of the files and the rows.
use mailroom.Store.Messages.{delete_messages_not_in, keyed, list_messages, uid_next_of}
use mailroom.Prelude.{
  All, All-sort_by, Ascending, Bool, Bool-cases, List, Option, Option-cases, Text, [], any,
  any-sort_by, ap, arith, collect, false, inl, inr, keep, length, length-sort_by, lookup,
  lookup-collect, lookup-collect-none, map, nat_beq_iff, nat_eq, none, refl, same_refl, some,
  sort_by-Ascending, suc, sym, text_eq, true, ℕ, ◌+◌, ◌<◌, ◌==◌, ◌^◌, ◌∙◌, ◌∷◌, ◌≡◌,
}
use mailroom.Maildir.{Message as FileMessage, Faults, Maildir, list, ok}
use mailroom.Store.{Db, MailboxMessage}
use mailroom.Store.Messages.Index.{AllApart, IsIndexed, others-IsIndexed}
use mailroom.Store.Messages.Rows.{AllApart-uid_in, any-keyed-delete, uid_in, uid_in-delete}
use mailroom.Imap.{Message, done}
use mailroom.Imap.Flags.{FlagNames}
use mailroom.Imap.Mailbox.{
  Mailbox, by_uid, finish_reload, key_of_file, key_of_message, key_of_row, reload,
}
use mailroom.Imap.Mailbox.Indexing.{Agrees, DistinctKeys, Ready, Stable, index_all_lem}

-- The rows of the mailbox, by their own field alone.
keep-All :
    (mb : ℕ) (Q : MailboxMessage → Type 0) (rows : List MailboxMessage)
    → All (λ r. r.mailbox_id ≡ mb → Q r) rows
    → All Q (keep (λ r. r.mailbox_id == mb) rows)
unfolding keep
keep-All mb Q [] h = tt
keep-All mb Q (r ∷ rows) h =
    ground (arith, keep-All mb Q rows h.1, h.0, nat_beq_iff r.mailbox_id mb)

any-keep_mailbox :
    (mb : ℕ) (k : Text) (rows : List MailboxMessage)
    → any (λ r. key_of_row r == k) (keep (λ r. r.mailbox_id == mb) rows) ≡ any (keyed mb k) rows
unfolding any keep
any-keep_mailbox mb k [] = refl
any-keep_mailbox mb k (r ∷ rows) = ground (arith, any-keep_mailbox mb k rows)

rows_found :
    (mb : ℕ) (db : Db)
    → AllApart mb db.messages
    → All (λ r. uid_in mb r.maildir_key db.messages ≡ some r.uid) (list_messages mb db)
unfolding list_messages
rows_found mb db v =
    All-sort_by (λ r. uid_in mb r.maildir_key db.messages ≡ some r.uid) _ _
      (keep-All mb (λ r. uid_in mb r.maildir_key db.messages ≡ some r.uid) db.messages
        (AllApart-uid_in mb db.messages v))

any-list_messages :
    (mb : ℕ) (k : Text) (db : Db)
    → any (λ r. key_of_row r == k) (list_messages mb db) ≡ any (keyed mb k) db.messages
unfolding list_messages
any-list_messages mb k db =
    any-sort_by (λ r. key_of_row r == k) _ (keep (λ r. r.mailbox_id == mb) db.messages)
    ∙ any-keep_mailbox mb k db.messages

module _ (mb : ℕ) (ms : List Message) (db : Db) (keys : List Text) (n : ℕ)
    (v : IsIndexed mb n db.messages) (agree : All (Agrees mb db) ms) where
  files_Ready :
      (dms : List FileMessage)
      → All (λ dm. any (λ k. k == dm.key) keys ≡ true) dms
      → All
          (λ dm.
            Ready mb
              (collect key_of_message ms [])
              (collect key_of_row (list_messages mb db) [])
              (delete_messages_not_in mb keys db)
              dm.key)
          dms
  unfolding lookup
  files_Ready [] listed = tt
  files_Ready (dm ∷ dms) (here, listed) =
      let same = uid_in-delete mb dm.key keys db here in
      (
        (
          (λ m e.
              let (k, uid) =
                lookup-collect key_of_message (Agrees mb db) ms [] dm.key m agree (λ w f. cc) e in
              (k, same ∙ ap (λ x. uid_in mb x db.messages) (sym k) ∙ uid)),
          (λ r e.
              let (k, uid) =
                lookup-collect key_of_row (λ r. uid_in mb r.maildir_key db.messages ≡ some r.uid)
                  (list_messages mb db) [] dm.key r (rows_found mb db v.apart) (λ w f. cc) e in
              same ∙ ap (λ x. uid_in mb x db.messages) (sym k) ∙ uid),
          (λ e g.
              let (gone, _) = lookup-collect-none key_of_row (list_messages mb db) [] dm.key g in
              any-keyed-delete mb dm.key keys db (sym (any-list_messages mb dm.key db) ∙ gone)),
        ),
        files_Ready dms listed,
      )

more_keys :
    (j : Text) (keys : List Text) (dms : List FileMessage)
    → All (λ dm. any (λ k. k == dm.key) keys ≡ true) dms
    → All (λ dm. any (λ k. k == dm.key) (j ∷ keys) ≡ true) dms
unfolding any
more_keys j keys [] h = tt
more_keys j keys (dm ∷ dms) h = (rw (h.0) (ground arith), more_keys j keys dms h.1)

all_listed :
    (dms : List FileMessage) → All (λ dm. any (λ k. k == dm.key) (map key_of_file dms) ≡ true) dms
unfolding any
all_listed [] = tt
all_listed (dm ∷ dms) =
    (rw (same_refl dm.key) refl, more_keys dm.key (map key_of_file dms) dms (all_listed dms))

-- A UID that there was for a listed key is there still.
abbrev pub Keeps : Bool → Option ℕ → Option ℕ → Type 0
Keeps true (some u) after = after ≡ some u
Keeps true none after = Unit
Keeps false before after = Unit

any-keys :
    (k : Text) (l : List Message) (dms : List FileMessage)
    → map key_of_message l ≡ map key_of_file dms
    → any (λ m. m.key == k) l ≡ any (λ dm. dm.key == k) dms
unfolding any
any-keys k [] [] e = refl
any-keys k [] (dm ∷ dms) e = cc
any-keys k (m ∷ l) [] e = cc
any-keys k (m ∷ l) (dm ∷ dms) e =
    let head : m.key ≡ dm.key = cc in
    let tail : map key_of_message l ≡ map key_of_file dms = cc in
    rw (head, any-keys k l dms tail) refl

length-keys :
    (l : List Message) (dms : List FileMessage)
    → map key_of_message l ≡ map key_of_file dms
    → length l ≡ length dms
length-keys [] [] e = refl
length-keys [] (dm ∷ dms) e = cc
length-keys (m ∷ l) [] e = cc
length-keys (m ∷ l) (dm ∷ dms) e =
    let tail : map key_of_message l ≡ map key_of_file dms = cc in ap suc (length-keys l dms tail)

Keeps-uid :
    (mb : ℕ) (k : Text) (keys : List Text) (db db1 : Db)
    → Stable mb (delete_messages_not_in mb keys db) db1
    → Keeps (any (λ j. j == k) keys) (uid_in mb k db.messages) (uid_in mb k db1.messages)
Keeps-uid mb k keys db db1 stable = elim (Bool-cases (any (λ j. j == k) keys)) [
  | inr gone ↦ rw (gone) tt
  | inl listed ↦ elim (Option-cases (uid_in mb k db.messages)) [
    | inl none_there ↦ rw (listed, none_there) tt
    | inr (u, there) ↦ rw (listed, there) (stable k u (uid_in-delete mb k keys db listed ∙ there))
  ]
]

uid_next-delete :
    (mb id : ℕ) (keys : List Text) (db : Db)
    → uid_next_of id (delete_messages_not_in mb keys db) ≡ uid_next_of id db
unfolding uid_next_of delete_messages_not_in
uid_next-delete mb id [] db = refl
uid_next-delete mb id (k ∷ keys) db = refl

-- A reload of a folder succeeds and brings the folder, the files and the rows into agreement: the
-- list has one message for each file, under its key and with the UID that the database has for it, in
-- ascending order of UIDs; a key that had a UID and a file keeps its UID; and the rows are well indexed
-- again. Before it, the listing succeeds with distinct keys, the rows are well indexed and agree with
-- the list, the mailbox exists, and there are UIDs left for the files.
pub reload_lem :
    (names : FlagNames) (f : Faults) (now n : ℕ) (md : Maildir) (db : Db) (mbox : Mailbox)
    (disk : List FileMessage) (k : Text)
    → list f md ≡ ok disk
    → DistinctKeys disk
    → uid_next_of mbox.db_id db ≡ some n
    → IsIndexed mbox.db_id n db.messages
    → n + length disk < 2 ^ 32
    → All (Agrees mbox.db_id db) mbox.messages
    → let (db1, mbox1, answer) = reload names f now md db mbox in
      (answer ≡ done tt)
      × All (Agrees mbox.db_id db1) mbox1.messages
      × Ascending (λ (m : Message). m.uid) mbox1.messages
      × (length mbox1.messages ≡ length disk)
      × (any (λ m. m.key == k) mbox1.messages ≡ any (λ dm. dm.key == k) disk)
      × Keeps
          (any (λ j. j == k) (map key_of_file disk))
          (uid_in mbox.db_id k db.messages)
          (uid_in mbox.db_id k db1.messages)
      × ((n1 : ℕ) × (uid_next_of mbox.db_id db1 ≡ some n1) × IsIndexed mbox.db_id n1 db1.messages)
unfolding reload finish_reload
reload_lem names f now n md db mbox disk k listing distinct next v room agree =
    let mb = mbox.db_id in
    let keys = map key_of_file disk in
    let v0 : IsIndexed mb n (delete_messages_not_in mb keys db).messages =
      (others-IsIndexed mb n [] [] keys db v).2 in
    let (db1, l, n1, e, agree1, same, next1, v1, _, stable) =
      index_all_lem names f now mb md (collect key_of_message mbox.messages [])
        (collect key_of_row (list_messages mb db) []) disk (delete_messages_not_in mb keys db) n
        (uid_next-delete mb mb keys db ∙ next) v0 room distinct
        (files_Ready mb mbox.messages db keys n v agree disk (all_listed disk)) in
    rw (reload, listing, e)
      (
        refl,
        All-sort_by (Agrees mb db1) by_uid l agree1,
        sort_by-Ascending (λ (m : Message). m.uid) l,
        length-sort_by by_uid l ∙ length-keys l disk same,
        any-sort_by (λ m. m.key == k) by_uid l ∙ any-keys k l disk same,
        Keeps-uid mb k keys db db1 stable,
        (n1, next1, v1),
      )
