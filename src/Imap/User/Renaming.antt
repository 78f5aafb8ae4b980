-- ===== src/Imap/User/Renaming.antt =====
-- internal/imapbackend/user.go: what Rename moves.
use mailroom.Prelude.{
  Bool-cases, if◌then◌else◌, List, Option-cases, Text, [], any, ap, arith, change, false,
  find_first, inl, inr, lookup, nat_eq, none, not, refl, same_refl, some, text_eq, true, ℕ, ◌&&◌,
  ◌==◌, ◌∙◌, ◌∷◌, ◌≡◌, ◌⊎◌,
}
use mailroom.Maildir.{Faults}
use mailroom.Maildir.Paths.{FilePath}
use mailroom.Store.{ok as stored, err as refusal, constraint, Mailbox as Row, Db, User}
use mailroom.Store.Mailboxes.{get_mailbox, named, rename_mailbox, taken}
use mailroom.Imap.{Answer, Failure, done, failed}
use mailroom.Imap.Disk.{Disk, move_all, rename_dir}
use mailroom.Imap.Disk.Laws.{at, lookup-move_all}
use mailroom.Imap.Disk.Paths.{path_eq, under}
use mailroom.Imap.Flags.{FlagNames}
use mailroom.Imap.User.{
  DbFaults, rename_row, Shared, State, canonical_mailbox_name, folder_root, mailbox_locked, rename,
  rename_at, with_mailbox,
}

none-any :
    (user_id id : ℕ) (name : Text) (rows : List Row)
    → find_first (named user_id name) rows ≡ none
    → any (λ n. named user_id name n && not (n.id == id)) rows ≡ false
unfolding find_first any
none-any user_id id name [] e = refl
none-any user_id id name (r ∷ rows) e = ground (arith, none-any user_id id name rows)

find_first-renamed :
    (user_id id : ℕ) (name : Text) (rows : List Row) (row : Row)
    → any (λ n. named user_id name n && not (n.id == id)) rows ≡ false
    → find_first (λ m. m.id == id) rows ≡ some row
    → row.user_id ≡ user_id
    → find_first
        (named user_id name)
        (change (λ m. m.id == id) (λ m. record m { name = name }) rows)
      ≡ some (record row { name = name })
unfolding find_first change any
find_first-renamed user_id id name [] row e f h = cc
find_first-renamed user_id id name (r ∷ rows) row e f h = elim (Bool-cases (r.id == id)) [
  | inl here ↦
      let it : r ≡ row = cc (rw (here) at f) in
      let owner : (r.user_id == user_id) ≡ true =
        rw (ap (λ (x : Row). x.user_id) it ∙ h) (same_refl user_id) in
      rw (here, owner, same_refl name) (ap (λ (x : Row). some (record x { name = name })) it)
  | inr other ↦ elim (Bool-cases (named user_id name r)) [
    | inl hit ↦ absurd (cc (rw (any, hit, other) at e))
    | inr miss ↦
        rw (other, miss)
          (find_first-renamed user_id id name rows row (rw (any, miss) at e) (rw (other) at f) h)
  ]
]

-- A name that no other mailbox of the user has goes to the row.
rename_mailbox-free :
    (user_id id : ℕ) (name : Text) (db : Db) (row : Row)
    → taken id name db ≡ false
    → find_first (λ m. m.id == id) db.mailboxes ≡ some row
    → row.user_id ≡ user_id
    → (rename_mailbox id name db).1 ≡ stored tt
      × (get_mailbox user_id name (rename_mailbox id name db).0 ≡ some (record row { name = name }))
unfolding get_mailbox rename_mailbox taken
rename_mailbox-free user_id id name db row free f h =
    let others : any (λ n. named user_id name n && not (n.id == id)) db.mailboxes ≡ false =
      rw (taken, f, h) at free in
    rw (rename_mailbox, free) (refl, find_first-renamed user_id id name db.mailboxes row others f h)

-- A name that GetMailbox does not find is free for any mailbox of the user.
unknown-free :
    (user_id id : ℕ) (name : Text) (db : Db) (row : Row)
    → get_mailbox user_id name db ≡ none
    → find_first (λ m. m.id == id) db.mailboxes ≡ some row
    → row.user_id ≡ user_id
    → taken id name db ≡ false
unfolding get_mailbox taken
unknown-free user_id id name db row e f h =
    rw (taken, f, h) (none-any user_id id name db.mailboxes e)

rename_dir-some :
    (old new : FilePath) (disk disk1 : Disk)
    → rename_dir old new disk ≡ some disk1
    → disk1 ≡ move_all old new disk
unfolding rename_dir
rename_dir-some old new disk disk1 e = ground (arith, e)

rename_row-taken :
    (g : DbFaults) (id : ℕ) (name : Text) (db : Db)
    → g.update ≡ false
    → taken id name db ≡ true
    → rename_row g id name db ≡ (db, some (refusal constraint))
unfolding rename_row rename_mailbox
rename_row-taken g id name db up other = rw (rename_row, up, rename_mailbox, other) refl

rename_row-up :
    (g : DbFaults) (id : ℕ) (name : Text) (db : Db)
    → g.update ≡ false
    → rename_row g id name db ≡ ((rename_mailbox id name db).0, some (rename_mailbox id name db).1)
unfolding rename_row
rename_row-up g id name db up = rw (rename_row, up) refl

-- Everything of the old path is at the new one.
abbrev pub HasMoved : FilePath → FilePath → State → State → Type 0
HasMoved old new s s1 =
    (rest : List Text) → lookup (at new rest) s1.disk ≡ lookup (at old rest) s.disk

-- Nothing has changed; or the directory has moved and nothing else has, which takes a fault of the
-- database; or the directory has moved and the row has the new name.
abbrev pub Renamed :
    DbFaults → FilePath → FilePath → ℕ → Text → Row → State → State × Answer (Unit {0}) → Type 0
Renamed g old new user_id name row s (s1, answer) =
    ((e : Failure) × (answer ≡ failed e) × (s1 ≡ s))
    ⊎ ((e : Failure) × (answer ≡ failed e)
        × ((g.get ≡ true) ⊎ (g.update ≡ true))
        × (s1.db ≡ s.db)
        × (s1.mailboxes ≡ s.mailboxes)
        × HasMoved old new s s1)
    ⊎ ((answer ≡ done tt)
        × (g.update ≡ false)
        × HasMoved old new s s1
        × (get_mailbox user_id name s1.db ≡ some (record row { name = name })))

module _ (names : FlagNames) (f : Faults) (now : ℕ) (base : FilePath) (u : User) where
  rename_at-Renamed :
      (g : DbFaults) (old new : Text) (s : State) (mbox : Shared) (row : Row)
      → find_first (λ m. m.id == mbox.mailbox.db_id) s.db.mailboxes ≡ some row
      → row.user_id ≡ u.id
      → any (λ e. under (folder_root names f now base u new) e.0) s.disk ≡ false
      → Renamed g mbox.root
          (folder_root names f now base u new)
          u.id
          new
          row
          s
          (rename_at names f now base u g old new mbox s)
  unfolding rename_at rename_row
  rename_at-Renamed g old new s mbox row there owner clear =
      let new_root = folder_root names f now base u new in
      elim (Option-cases (if g.get then none else get_mailbox u.id new s.db)) [
        | inr (taken_by, e) ↦ rw (rename_at, e) (inl (_, refl, refl))
        | inl free ↦ elim (Bool-cases f.rename) [
          | inl fault ↦ rw (rename_at, free, fault) (inl (_, refl, refl))
          | inr works ↦ elim (Option-cases (rename_dir mbox.root new_root s.disk)) [
            | inl refused ↦ rw (rename_at, free, works, refused) (inl (_, refl, refl))
            | inr (disk1, moved) ↦
                let has_moved : (rest : List Text)
                    → lookup (at new_root rest) disk1 ≡ lookup (at mbox.root rest) s.disk =
                  λ rest.
                    rw (rename_dir-some mbox.root new_root s.disk disk1 moved)
                      (lookup-move_all mbox.root new_root rest s.disk clear) in
                elim (Bool-cases g.update) [
                  | inl down ↦
                      rw (rename_at, free, works, moved, rename_row, down)
                        (inr (inl (_, refl, inr refl, refl, refl, has_moved)))
                  | inr up ↦ elim (Bool-cases (taken mbox.mailbox.db_id new s.db)) [
                    | inl other ↦
                        let kept = rename_row-taken g mbox.mailbox.db_id new s.db up other in
                        let blind : g.get ≡ true = elim (Bool-cases g.get) [
                          | inl down ↦ down
                          | inr runs ↦
                              let known : get_mailbox u.id new s.db ≡ none = rw (runs) at free in
                              cc (
                                other,
                                unknown-free u.id mbox.mailbox.db_id new s.db row known there owner,
                              )
                        ] in
                        rw (rename_at, free, works, moved, kept)
                          (inr (inl (_, refl, inl blind, ap (λ x. x.0) kept, refl, has_moved)))
                    | inr single ↦
                        let (answer, row1) =
                          rename_mailbox-free u.id mbox.mailbox.db_id new s.db row single there
                            owner in
                        let ran = rename_row-up g mbox.mailbox.db_id new s.db up in
                        rw (rename_at, free, works, moved, ran, answer)
                          (inr (
                            inr
                              (refl, up, has_moved, ap (λ x. get_mailbox u.id new x.0) ran ∙ row1)))
                  ]
                ]
          ]
        ]
      ]

-- A rename that succeeds has brought the whole directory, with the folders in it, to the new path, and
-- the row to the new name. One that fails has changed nothing, except where the database fails: where
-- UPDATE does, or where the SELECT before it does and another mailbox has the name, the directory is
-- moved and stays at the new path, while the row and the open mailbox keep the old name. This is for a
-- mailbox that is open, whose row the user has, and where nothing lies at the new path.
pub rename_lem :
    (names : FlagNames) (f : Faults) (now : ℕ) (base : FilePath) (u : User) (g : DbFaults)
    (old_name new_name : Text) (s : State) (mbox : Shared) (row : Row)
    → lookup (canonical_mailbox_name old_name) s.mailboxes ≡ some mbox
    → find_first (λ m. m.id == mbox.mailbox.db_id) s.db.mailboxes ≡ some row
    → row.user_id ≡ u.id
    → any (λ e. under (folder_root names f now base u (canonical_mailbox_name new_name)) e.0) s.disk
      ≡ false
    → Renamed g mbox.root
        (folder_root names f now base u (canonical_mailbox_name new_name))
        u.id
        (canonical_mailbox_name new_name)
        row
        s
        (rename names f now base u g old_name new_name s)
unfolding rename mailbox_locked with_mailbox
rename_lem names f now base u g old_name new_name s mbox row cached there owner clear =
    rw (rename, mailbox_locked, cached)
      (rename_at-Renamed names f now base u g (canonical_mailbox_name old_name)
        (canonical_mailbox_name new_name) s mbox row there owner clear)
