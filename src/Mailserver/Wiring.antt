-- ===== src/Mailserver/Wiring.antt =====
-- cmd/mailserver/main.go: the settings that reach the queue.
use mailroom.Prelude.{
  Bool-cases, List, Option, Text, Unique, [], ap, arith, if◌then◌else◌, inl, inr, insert,
  insert-Unique, length, lookup, lookup-insert, map, nat_eq, none, refl, same_refl, some, sym,
  text_beq_iff, text_eq, ℕ, ◌*◌, ◌<◌, ◌==◌, ◌∙◌, ◌∷◌, ◌≡◌, ◌≢◌,
}
use mailroom.Config.{Config, Env, load}
use mailroom.Config.Loading.{IsComplete, load-IsComplete}
use mailroom.Mailserver.{minute, queue_settings}
use mailroom.Queue.{Item, Spool, World, enqueue, run, save}
use mailroom.Queue.Attempt.{Ends}
use mailroom.Queue.Expiry.{AllDue, run-expires}
use mailroom.Queue.Turn.{IsFiled}

map-filled : (f : ℕ → ℕ) (l : List ℕ) → l ≢ [] → map f l ≢ []
map-filled f [] h = λ e. h refl
map-filled f (x ∷ l) h = λ e. cc e

queue_settings-filled : (c : Config) → IsComplete c → (queue_settings c).retry_intervals ≢ []
unfolding queue_settings
queue_settings-filled c h =
    map-filled (λ m. m * minute) c.queue.retry_interval_minutes h.has_interval

-- The item that Enqueue makes.
abbrev pub new_item : Text → ℕ → Text → Text → Item
new_item id now from to = record {
  id = id;
  from = from;
  to = to;
  attempts = 0;
  next_attempt = now;
  last_error = [];
  created_at = now;
}

enqueue-IsFiled :
    (id : Text) (now : ℕ) (from to content : Text) (s : Spool)
    → IsFiled s
    → IsFiled (enqueue (some id) now from to content s).0
unfolding enqueue save
enqueue-IsFiled id now from to content s filed j item h =
    go (lookup-insert id j (some (new_item id now from to)) s.items)
  where
    go :
        lookup j (insert id (some (new_item id now from to)) s.items)
          ≡ (if id == j then some (some (new_item id now from to)) else lookup j s.items)
        → item.id ≡ j
    go e = elim (Bool-cases (id == j)) [
      | inl same ↦
          let mine : some (some (new_item id now from to)) ≡ some (some item) =
            cc (rw (same) at e, h) in
          let it : new_item id now from to ≡ item = cc mine in
          let name : id ≡ j = (text_beq_iff id j).0 same in sym (ap (λ (x : Item). x.id) it) ∙ name
      | inr apart ↦ filed j item (sym (rw (apart) at e) ∙ h)
    ]

-- A message that is put into the queue under any settings that load does not stay for ever: the
-- settings give the queue an interval to wait, so that no pass ends the process, and after one pass
-- more than the maximum of attempts the item and its body are gone, where every pass finds the item
-- due while it is there. Each item that was there is stored once, under its own identifier.
pub enqueued-expires :
    (file : Option Config) (env : Env) (c : Config) (ws : List World) (s : Spool)
    (id from to content : Text) (now : ℕ)
    → load file env ≡ inr c
    → IsFiled s
    → Unique s.items
    → AllDue (queue_settings c) ws (some (some (new_item id now from to)), some content)
    → c.queue.max_retries < length ws
    → Ends
        (run (queue_settings c) ws (enqueue (some id) now from to content s).0)
        (λ t _. (lookup id t.items ≡ none) × (lookup id t.bodies ≡ none))
unfolding queue_settings enqueue save
enqueued-expires file env c ws s id from to content now loads filed unique due enough =
    let item = new_item id now from to in
    let stored : lookup id (insert id (some item) s.items) ≡ some (some item) =
      lookup-insert id id (some item) s.items ∙ rw (same_refl id) refl in
    let body : lookup id (insert id content s.bodies) ≡ some content =
      lookup-insert id id content s.bodies ∙ rw (same_refl id) refl in
    run-expires (queue_settings c) ws (enqueue (some id) now from to content s).0 item
      (queue_settings-filled c (load-IsComplete file env c loads))
      (enqueue-IsFiled id now from to content s filed) (insert-Unique id (some item) s.items unique)
      stored (rw (stored, body) due) (omega arith) (omega (arith, enough))
