-- ===== src/Gotify/Bolt/Mirror/Removal.antt =====
-- internal/gotifycompat/store.go: the removal of a message from a bboltStore that holds what a
-- memoryStore holds.
use mathlib.Core.Path.{subst}
use timelynotify_server.Base.{
  ℕ, ◌+◌, ◌^◌, ◌<◌, true, false, List, [], ◌∷◌, some, ℤ, ◌≡◌, refl, sym, ap, ◌∙◌, arith, All, map,
  nat_eq, nat_key,
}
use timelynotify_server.Base.Ascending.{Ascending, remove_id}
use timelynotify_server.Base.Dict
use timelynotify_server.Base.Dict.{get-del}
use timelynotify_server.Gotify.Model.{source_device, single_row}
use timelynotify_server.Gotify.Memory.{
  MemoryStore, message_at, remove_locked, remove_logged, or_zero,
}
use timelynotify_server.Gotify.Memory.Logged.{IsLogged, IsLogged-same}
use timelynotify_server.Gotify.Bolt.{Format, BoltStore, remove_message, remove_logged_tx}
use timelynotify_server.Gotify.Bolt.Table
use timelynotify_server.Gotify.Bolt.Table.{keys}
use timelynotify_server.Gotify.Bolt.Entries.{keys-del, All-del, index_del-map, remove_id-ne}
use timelynotify_server.Gotify.Bolt.Mirror.{ReadsAs, Shows, entry, Accepts, Mirrors}
use timelynotify_server.Gotify.Bolt.Mirror.Rows.{add_deletion_tx-Mirrors}

-- The memoryStores have the same messages under the ids.
abbrev pub Alike : MemoryStore → MemoryStore → List ℕ → Type 0
Alike s t = All (λ id. message_at s id ≡ message_at t id)

pub entry-Alike {ℓ} :
    {V : Type ℓ} (s t : MemoryStore) (rows : List (ℕ × V))
    → Alike s t (keys rows)
    → map (entry s) rows ≡ map (entry t) rows
entry-Alike s t [] h = refl
entry-Alike s t ((id, v) ∷ rows) h = rw h.0 (ap (◌∷◌ (entry t (id, v))) (entry-Alike s t rows h.1))

module _ {B : Type 0} (format : Format B) (accepts : Accepts format) where
  pub reads-Alike :
      (s t : MemoryStore) (rows : List (ℕ × B))
      → Alike s t (keys rows)
      → All (ReadsAs format accepts s) rows
      → All (ReadsAs format accepts t) rows
  reads-Alike s t [] h r = tt
  reads-Alike s t ((id, raw) ∷ rows) h r =
      (subst (λ x. Shows format accepts x id raw) h.0 r.0, reads-Alike s t rows h.1 r.1)

message_at-remove :
    (id j : ℕ) (s : MemoryStore)
    → nat_eq id j ≡ false
    → message_at s j ≡ message_at (remove_locked id s) j
unfolding message_at remove_locked
message_at-remove id j s other =
    let same : Dict.get (Dict.del s.msgs id) j ≡ Dict.get s.msgs j =
      ground (arith, get-del s.msgs id j) in
    sym (ap or_zero same)

remove-Alike :
    (id : ℕ) (s : MemoryStore) (ids : List ℕ)
    → All (λ j. nat_eq id j ≡ false) ids
    → Alike s (remove_locked id s) ids
remove-Alike id s [] h = tt
remove-Alike id s (j ∷ ids) h = (message_at-remove id j s h.0, remove-Alike id s ids h.1)

module _ {B : Type 0} (format : Format B) (accepts : Accepts format) (b : BoltStore B)
    (s : MemoryStore) (h : Mirrors format accepts b s) (id : ℕ) (a : Ascending 0 s.order) where
  left : keys (Table.del b.msgs id) ≡ remove_id id s.order
  left = keys-del b.msgs id ∙ ap (remove_id id) h.messages.ids

  left-Alike : Alike s (remove_locked id s) (keys (Table.del b.msgs id))
  left-Alike = rw left (remove-Alike id s (remove_id id s.order) (remove_id-ne id 0 s.order a))

  pub remove_message-Mirrors :
      Mirrors format accepts
        (remove_message (source_device (message_at s id)) id b)
        (remove_locked id s)
  unfolding remove_message remove_locked
  remove_message-Mirrors =
      let t = remove_locked id s in
      let rest = Table.del b.msgs id in
      record {
        messages = record {
          ids = left;
          reads =
              reads-Alike format accepts s t rest left-Alike
                (All-del (ReadsAs format accepts s) b.msgs id h.messages.reads);
          index = rw h.messages.index (
              index_del-map (λ j. source_device (message_at s j)) b.msgs id
              ∙ entry-Alike s t rest left-Alike);
        };
        log = record { rows = h.log.rows; index = h.log.index };
        seq = h.seq;
        max = h.max;
        del_seq = h.del_seq;
        del_msg = h.del_msg;
      }

  -- A removal with its tombstone, where the device fits, succeeds and keeps the stores alike.
  pub remove_logged_tx-Mirrors :
      format.fits (source_device (message_at s id)) ≡ true
      → IsLogged s
      → (now : ℤ) → s.del_seq + 1 < 2 ^ 64
      → (b' : BoltStore B) × (remove_logged_tx format now (source_device (message_at s id)) id b
          ≡ some b')
        × Mirrors format accepts b' (remove_logged now id s)
        × (b'.count ≡ b.count)
  unfolding remove_logged_tx remove_logged remove_locked remove_message
  remove_logged_tx-Mirrors fit v now room =
      let device = source_device (message_at s id) in
      let t = remove_locked id s in
      let (b', added, mirrors, counted) =
        add_deletion_tx-Mirrors format accepts (remove_message device id b) t remove_message-Mirrors
          (IsLogged-same s t refl refl refl v) now (single_row device id) fit accepts.room-empty
          room in
      (b', rw added refl, mirrors, counted)
