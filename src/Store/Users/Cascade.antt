-- ===== src/Store/Users/Cascade.antt =====
-- internal/store/store.go: what `DeleteUser` takes along, by the schema's ON DELETE CASCADE.
use mailroom.Store.Messages.{list_messages}
use mailroom.Prelude.{
  Bool, Bool-cases, [], any, arith, false, find_first-keep, find_first-none, if◌then◌else◌, inl,
  inr, keep-keep, keep-none, nat_beq_iff, nat_eq, not, text_eq, ℕ, ◌&&◌, ◌==◌, ◌≡◌, ◌≢◌,
}
use mailroom.Store.{Db, err, not_found}
use mailroom.Store.Users.{delete_user, get_user_by_id}
use mailroom.Store.Mailboxes.{list_mailboxes}
use mailroom.Store.Settings.{get_forwarding}

-- The mailbox belongs to the user.
abbrev pub owns : ℕ → ℕ → Db → Bool
owns id mailbox_id db = any (λ m. m.id == mailbox_id && m.user_id == id) db.mailboxes

messages-delete_user :
    (id mb : ℕ) (db : Db)
    → list_messages mb (delete_user id db) ≡ (if owns id mb db then [] else list_messages mb db)
unfolding delete_user list_messages
messages-delete_user id mb db = elim (Bool-cases (owns id mb db)) [
  | inl gone ↦ rw (
    gone,
    keep-none (λ r. r.mailbox_id == mb) (λ r. not (owns id r.mailbox_id db)) db.messages
        (λ r h. rw ((nat_beq_iff r.mailbox_id mb).0 h, gone)),
  )
  | inr kept ↦ rw (
    kept,
    keep-keep (λ r. r.mailbox_id == mb) (λ r. not (owns id r.mailbox_id db)) db.messages
        (λ r h. rw ((nat_beq_iff r.mailbox_id mb).0 h, kept)),
  )
]

-- After a user is deleted, the user is not found, owns no mailbox, and has no forwarding rule, while
-- every other user is found as before, with the same mailboxes and the same forwarding rule; and of
-- the message rows, those of the user's mailboxes go and those of any other mailbox stay.
pub delete_user_lem :
    (id other mb : ℕ) (db : Db)
    → other ≢ id
    → (get_user_by_id (delete_user id db) id ≡ err not_found)
      × (list_mailboxes id (delete_user id db) ≡ [])
      × ((get_forwarding id (delete_user id db)).enabled ≡ false)
      × (get_user_by_id (delete_user id db) other ≡ get_user_by_id db other)
      × (list_mailboxes other (delete_user id db) ≡ list_mailboxes other db)
      × (get_forwarding other (delete_user id db) ≡ get_forwarding other db)
      × (list_messages mb (delete_user id db) ≡ (if owns id mb db then [] else list_messages mb db))
unfolding delete_user get_user_by_id list_mailboxes get_forwarding
delete_user_lem id other mb db ne = (
  rw (
      find_first-none (λ u. u.id == id) (λ u. not (u.id == id)) db.users
        (λ x h. ground (arith, h))),
  rw (
      keep-none (λ m. m.user_id == id) (λ m. not (m.user_id == id)) db.mailboxes
        (λ x h. ground (arith, h))),
  rw (
    find_first-none (λ f. f.user_id == id) (λ f. not (f.user_id == id)) db.forwarding
        (λ x h. ground (arith, h)),
    get_forwarding,
  ),
  rw (
      find_first-keep (λ u. u.id == other) (λ u. not (u.id == id)) db.users
        (λ x h. ground (arith, h))),
  rw (
      keep-keep (λ m. m.user_id == other) (λ m. not (m.user_id == id)) db.mailboxes
        (λ x h. ground (arith, h))),
  rw (
    find_first-keep (λ f. f.user_id == other) (λ f. not (f.user_id == id)) db.forwarding
        (λ x h. ground (arith, h)),
    get_forwarding,
  ),
  messages-delete_user id mb db,
)
