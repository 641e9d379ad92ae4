-- ===== src/Gotify/Bolt/Mirror/Upserts.antt =====
-- internal/gotifycompat/store.go: UpsertByExtraID on a bboltStore that holds what a memoryStore holds.
use mathlib.Core.Path.{subst}
use mathlib.Core.List.{reverse}
use timelynotify_server.Base.{
  ℕ, ◌≤◌, ◌<◌, ◌+◌, ◌^◌, String, true, false, ◌||◌, List, [], ◌∷◌, some, ℤ, ◌≡◌, refl, sym, ap, ◌∙◌,
  arith, All, Text, map, nat_eq, nat_eq→≡, nat_eq_refl, ltb, if◌then◌else◌, ◌==◌, string_key,
  text_key, nat_key, Bool-cases, Option-cases, inl, inr, is_pos_ℤ, pos_part,
}
use timelynotify_server.Base.Ascending.{Ascending, mem, mem-below, mem-reverse}
use timelynotify_server.Base.Dict
use timelynotify_server.Base.Dict.{get-put}
use timelynotify_server.Gotify.Model.{Message, source_device}
use timelynotify_server.Gotify.Memory
use timelynotify_server.Gotify.Memory.{MemoryStore, message_at, or_zero, store_message}
use timelynotify_server.Gotify.Memory.Outcomes.{find_extra-Fits}
use timelynotify_server.Gotify.Memory.Keeps.{HasRoom}
use timelynotify_server.Gotify.Memory.Valid.{IsValid}
use timelynotify_server.Gotify.Memory.Logged.{IsLogged}
use timelynotify_server.Gotify.Bolt
use timelynotify_server.Gotify.Bolt.{Format, BoltStore, with_id, overwrite}
use timelynotify_server.Gotify.Bolt.Table
use timelynotify_server.Gotify.Bolt.Table.{keys}
use timelynotify_server.Gotify.Bolt.Mirror.{ReadsAs, Shows, Travels, entry, Accepts, Simulates}
use timelynotify_server.Gotify.Bolt.Mirror.Adds.{Travels-Shows}
use timelynotify_server.Gotify.Bolt.Mirror.Calls.{add-mirrors}
use timelynotify_server.Gotify.Bolt.Mirror.Deletes.{found-mirrors}

abbrev owner_entry : MemoryStore → ℕ → ℕ × String
owner_entry s id = (id, source_device (message_at s id))

module _ {ℓ} {V : Type ℓ} where
  -- A value that is replaced keeps its place.
  keys-put_stored :
      (lo : ℕ) (rows : List (ℕ × V)) (k : ℕ) (v : V)
      → Ascending lo (keys rows)
      → mem k (keys rows) ≡ true
      → keys (Table.put rows k v) ≡ keys rows
  unfolding Table.put
  keys-put_stored lo [] k v a h = absurd (ground arith)
  keys-put_stored lo ((j, w) ∷ t) k v a h = elim (Bool-cases (nat_eq j k)) [
    | inl same ↦ rw same (ap (λ i. i ∷ keys t) (sym (nat_eq→≡ j k same)))
    | inr other ↦
        let later : mem k (keys t) ≡ true = ground arith in
        let behind : ltb k j ≡ false = ground (arith, mem-below k j (keys t), a.1) in
        rw (other, behind) (ap (◌∷◌ j) (keys-put_stored j t k v a.1 later))
  ]

  All-above {κ} :
      (P : ℕ × V → Type κ) (lo : ℕ) (rows : List (ℕ × V)) (k : ℕ)
      → k ≤ lo
      → Ascending lo (keys rows)
      → All (λ row. nat_eq k row.0 ≡ false → P row) rows
      → All P rows
  All-above P lo [] k h a old = tt
  All-above P lo ((j, w) ∷ t) k h a old =
      (old.0 (ground arith), All-above P j t k (omega arith) a.1 old.1)

  All-put_stored {κ} :
      (P : ℕ × V → Type κ) (lo : ℕ) (rows : List (ℕ × V)) (k : ℕ) (v : V)
      → Ascending lo (keys rows)
      → mem k (keys rows) ≡ true
      → All (λ row. nat_eq k row.0 ≡ false → P row) rows
      → P (k, v)
      → All P (Table.put rows k v)
  unfolding Table.put
  All-put_stored P lo [] k v a h old new = (new, tt)
  All-put_stored P lo ((j, w) ∷ t) k v a h old new = elim (Bool-cases (nat_eq j k)) [
    | inl same ↦ rw same (new, All-above P j t k (ground arith) a.1 old.1)
    | inr other ↦
        let later : mem k (keys t) ≡ true = ground arith in
        let behind : ltb k j ≡ false = ground (arith, mem-below k j (keys t), a.1) in
        rw (other, behind) (old.0 (ground arith), All-put_stored P j t k v a.1 later old.1 new)
  ]

  entry-keys :
      (s : MemoryStore) (rows : List (ℕ × V)) → map (entry s) rows ≡ map (owner_entry s) (keys rows)
  entry-keys s [] = refl
  entry-keys s ((id, v) ∷ t) = ap (◌∷◌ (entry s (id, v))) (entry-keys s t)

owners-alike :
    (s t : MemoryStore) (ids : List ℕ)
    → ((id : ℕ) → source_device (message_at s id) ≡ source_device (message_at t id))
    → map (owner_entry s) ids ≡ map (owner_entry t) ids
owners-alike s t [] h = refl
owners-alike s t (id ∷ ids) h =
    rw (h id) (ap (◌∷◌ (id, source_device (message_at t id))) (owners-alike s t ids h))

module _ (m : Message) (id : ℕ) (s : MemoryStore) where
  message_at-store :
      (j : ℕ)
      → message_at (store_message id m s) j ≡ (if nat_eq id j then with_id m id else message_at s j)
  unfolding message_at store_message
  message_at-store j = elim (Bool-cases (nat_eq id j)) [
    | inl same ↦
        let new : Dict.get (Dict.put s.msgs id (record m { id = id })) j
            ≡ some (record m { id = id }) =
          ground (arith, get-put s.msgs id j (record m { id = id })) in
        rw same (ap or_zero new)
    | inr other ↦
        let old : Dict.get (Dict.put s.msgs id (record m { id = id })) j ≡ Dict.get s.msgs j =
          ground (arith, get-put s.msgs id j (record m { id = id })) in
        rw other (ap or_zero old)
  ]

  -- No message changes its device.
  owners-store :
      source_device m ≡ source_device (message_at s id)
      → (j : ℕ)
      → source_device (message_at s j) ≡ source_device (message_at (store_message id m s) j)
  unfolding source_device
  owners-store own j = elim (Bool-cases (nat_eq id j)) [
    | inl same ↦ rw (message_at-store j, same) (rw⁻¹ (nat_eq→≡ id j same) (sym own))
    | inr other ↦ rw (message_at-store j, other) refl
  ]

module _ {B : Type 0} (format : Format B) (accepts : Accepts format) where
  reads-store :
      (s : MemoryStore) (m : Message) (id : ℕ) (rows : List (ℕ × B))
      → All (ReadsAs format accepts s) rows
      → All
          (λ row. nat_eq id row.0 ≡ false → ReadsAs format accepts (store_message id m s) row)
          rows
  reads-store s m id [] h = tt
  reads-store s m id ((j, raw) ∷ rows) h = (
    λ other.
        subst (λ x. Shows format accepts x j raw) (sym (message_at-store m id s j ∙ rw other refl))
          h.0,
    reads-store s m id rows h.1,
  )

  module _ (b : BoltStore B) (s : MemoryStore) (h : Simulates format accepts b s)
      (valid : IsValid s) where
    overwrite-mirrors :
        (id : ℕ) (m : Message)
        → Travels format accepts m
        → mem id s.order ≡ true
        → source_device m ≡ source_device (message_at s id)
        → (b' : BoltStore B) × (overwrite format id m b ≡ some b')
          × Simulates format accepts b' (store_message id m s)
    unfolding overwrite store_message
    overwrite-mirrors id m travels stored own =
        let t = store_message id m s in
        let (raw, encoded, decoded) = travels.stored id in
        let ids = h.0.messages.ids in
        let ascending : Ascending 0 (keys b.msgs) = rw ids valid.ascending in
        let held : mem id (keys b.msgs) ≡ true = rw ids stored in
        let new : ReadsAs format accepts t (id, raw) =
          subst (λ x. Shows format accepts x id raw)
            (sym (message_at-store m id s id ∙ rw (nat_eq_refl id) refl))
            (Travels-Shows format accepts m id raw travels decoded) in
        let rows = Table.put b.msgs id raw in
        let kept : keys rows ≡ keys b.msgs = keys-put_stored 0 b.msgs id raw ascending held in
        let b' : BoltStore B = record b {
          msgs = rows;
          ttl = if is_pos_ℤ m.expires_at then Table.put b.ttl id (pos_part m.expires_at) else b.ttl;
        } in
        (
          b',
          rw encoded refl,
          (
            record {
              messages = record {
                ids = kept ∙ ids;
                reads =
                    All-put_stored (ReadsAs format accepts t) 0 b.msgs id raw ascending held
                      (reads-store s m id b.msgs h.0.messages.reads) new;
                index =
                    h.0.messages.index
                    ∙ entry-keys s b.msgs
                    ∙ owners-alike s t (keys b.msgs) (owners-store m id s own)
                    ∙ ap (map (owner_entry t)) (sym kept)
                    ∙ sym (entry-keys t rows);
              };
              log = record { rows = h.0.log.rows; index = h.0.log.index };
              seq = h.0.seq;
              max = h.0.max;
              del_seq = h.0.del_seq;
              del_msg = h.0.del_msg;
            },
            h.1,
          ),
        )

    -- UpsertByExtraID succeeds, returns what the memoryStore returns, and keeps the stores alike, for a
    -- message that travels and is of the device that it is called with.
    pub upsert_by_extra_id-mirrors :
        (now : ℤ) (device : String) (extra_id : Text) (m : Message)
        → IsLogged s
        → Travels format accepts m
        → source_device m ≡ device
        → HasRoom s.seq
        → HasRoom s.del_seq
        → s.max + 1 < 2 ^ 64
        → (b' : BoltStore B) × (Bolt.upsert_by_extra_id format now device extra_id m b
            ≡ some ((Memory.upsert_by_extra_id now device extra_id m s).0, b'))
          × Simulates format accepts b' (Memory.upsert_by_extra_id now device extra_id m s).1
    unfolding Bolt.upsert_by_extra_id Memory.upsert_by_extra_id
    upsert_by_extra_id-mirrors now device extra_id m v travels own room room_log small =
        let scan = found-mirrors format accepts b s h valid v device extra_id in
        let (b1, added, simulates) =
          add-mirrors format accepts b s h valid v now m travels room room_log small in
        elim (Bool-cases ((extra_id == []) || (device == ""))) [
          | inl skip ↦
              rw (skip, Memory.upsert_by_extra_id, Bolt.upsert_by_extra_id)
                (b1, rw added refl, simulates)
          | inr search_ ↦
              elim (Option-cases (Memory.find_extra s device extra_id (reverse s.order))) [
                | inl absent ↦
                    rw (search_, scan, absent, Memory.upsert_by_extra_id, Bolt.upsert_by_extra_id)
                      (b1, rw added refl, simulates)
                | inr (id, found) ↦
                    let (visited, owned, _) =
                      find_extra-Fits s device extra_id (reverse s.order) id found in
                    let stored = sym (mem-reverse id s.order) ∙ visited in
                    let (b2, written, alike) =
                      overwrite-mirrors id m travels stored (own ∙ sym owned) in
                    rw (search_, scan, found, Memory.upsert_by_extra_id, Bolt.upsert_by_extra_id)
                      (b2, rw written refl, alike)
              ]
        ]
