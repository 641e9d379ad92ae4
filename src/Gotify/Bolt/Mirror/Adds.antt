-- ===== src/Gotify/Bolt/Mirror/Adds.antt =====
-- internal/gotifycompat/store.go: Add on a bboltStore that holds what a memoryStore holds.
use mathlib.Core.Path.{subst}
use timelynotify_server.Base.{
  ℕ, ◌+◌, ◌^◌, ◌≤◌, ◌<◌, List, [], ◌∷◌, ◌++◌, some, ◌≡◌, refl, sym, ap, ◌∙◌, arith, All, All-append,
  if◌then◌else◌, nat_key, is_pos_ℤ, pos_part,
}
use timelynotify_server.Base.Dict
use timelynotify_server.Base.Dict.{get-put}
use timelynotify_server.Gotify.Model.{Message, source_device, extra_id_of, succ_uint64}
use timelynotify_server.Gotify.Memory.{
  MemoryStore, message_at, or_zero, store_message, append_message,
}
use timelynotify_server.Gotify.Bolt.{Format, BoltStore, with_id, put_pair, index_message_put}
use timelynotify_server.Gotify.Bolt.Table
use timelynotify_server.Gotify.Bolt.Table.{keys}
use timelynotify_server.Gotify.Bolt.Entries.{Below, Below-le, put_last, index_put_last, keys-append}
use timelynotify_server.Gotify.Bolt.Mirror.{
  ReadsAs, Travels, Shows, seen, map-append, entry, Accepts, Mirrors,
}
use timelynotify_server.Gotify.Bolt.Mirror.Removal.{Alike, entry-Alike, reads-Alike}

module _ (m : Message) (id : ℕ) (s : MemoryStore) where
  message_at-append-new : message_at (append_message id m s) id ≡ with_id m id
  unfolding message_at append_message store_message
  message_at-append-new =
      let new : Dict.get (Dict.put s.msgs id (record m { id = id })) id
          ≡ some (record m { id = id }) =
        ground (arith, get-put s.msgs id id (record m { id = id })) in
      ap or_zero new

  append-Alike : (ids : List ℕ) → Below id ids → Alike s (append_message id m s) ids
  unfolding message_at append_message store_message
  append-Alike [] h = tt
  append-Alike (j ∷ ids) h =
      let old : Dict.get s.msgs j ≡ Dict.get (Dict.put s.msgs id (record m { id = id })) j =
        ground (arith, get-put s.msgs id j (record m { id = id })) in
      (ap or_zero old, append-Alike ids h.1)

module _ {ℓ} {V : Type ℓ} (s : MemoryStore) where
  keys-entry :
      (k : ℕ) (rows : List (ℕ × V)) → Below k (keys rows) → All (λ row. (entry s row).0 < k) rows
  keys-entry k [] h = tt
  keys-entry k ((id, v) ∷ rows) h = (h.0, keys-entry k rows h.1)

-- A written message shows under its id.
pub Travels-Shows :
    {B : Type 0} (format : Format B) (accepts : Accepts format) (m : Message) (id : ℕ) (raw : B)
    → Travels format accepts m
    → format.decode raw ≡ some (seen format accepts (with_id m id))
    → Shows format accepts (with_id m id) id raw
unfolding source_device extra_id_of
Travels-Shows format accepts m id raw travels decoded = record {
  read = seen format accepts (with_id m id);
  decoded = decoded;
  same = refl;
  device = travels.device;
  extra = travels.extra;
  fits = travels.fits;
}

module _ {B : Type 0} (format : Format B) (accepts : Accepts format) where
  -- The message and its index entry stand behind the others.
  pub append-Mirrors :
      (m : Message) (b : BoltStore B) (s : MemoryStore) (raw : B)
      → Mirrors format accepts b s
      → All (λ id. id ≤ s.seq) s.order
      → s.seq + 1 < 2 ^ 64
      → Travels format accepts m
      → format.decode raw ≡ some (seen format accepts (with_id m (succ_uint64 s.seq)))
      → (b' : BoltStore B) × (index_message_put format
            (with_id m (succ_uint64 s.seq))
            (record b { seq = succ_uint64 s.seq; msgs = Table.put b.msgs (succ_uint64 s.seq) raw })
          ≡ some b')
        × Mirrors format accepts b' (append_message (succ_uint64 s.seq) m s)
        × (b'.count ≡ b.count)
  unfolding index_message_put put_pair append_message store_message source_device
  append-Mirrors m b s raw h assigned room travels decoded =
      let id = succ_uint64 s.seq in
      let t = append_message id m s in
      let below : Below id (keys b.msgs) =
        rw h.messages.ids (Below-le s.seq id s.order (omega arith) assigned) in
      let alike = append-Alike m id s (keys b.msgs) below in
      let row : ℕ × B = (id, raw) in
      let new : ReadsAs format accepts t row =
        subst (λ x. Shows format accepts x id raw) (sym (message_at-append-new m id s))
          (Travels-Shows format accepts m id raw travels decoded) in
      let stored = put_last b.msgs id raw below in
      let b' : BoltStore B = record b {
        seq = id;
        msgs = Table.put b.msgs id raw;
        dev_msgs = Table.index_put b.dev_msgs id (source_device m);
        ttl = if is_pos_ℤ m.expires_at then Table.put b.ttl id (pos_part m.expires_at) else b.ttl;
      } in
      (
        b',
        rw travels.fits refl,
        record {
          messages = record {
            ids = rw stored (keys-append b.msgs id raw ∙ ap (λ l. l ++ id ∷ []) h.messages.ids);
            reads = rw stored (
                All-append (ReadsAs format accepts t) b.msgs (row ∷ [])
                  (reads-Alike format accepts s t b.msgs alike h.messages.reads) (new, tt));
            index =
                rw
                  (
                    stored,
                    h.messages.index,
                    index_put_last (entry s) b.msgs id (source_device m)
                        (keys-entry s id b.msgs below),
                    map-append (entry t) b.msgs row,
                    entry-Alike s t b.msgs alike,
                    message_at-append-new m id s,
                  )
                  refl;
          };
          log = record { rows = h.log.rows; index = h.log.index };
          seq = refl;
          max = h.max;
          del_seq = h.del_seq;
          del_msg = h.del_msg;
        },
        refl,
      )
