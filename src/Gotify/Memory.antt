-- ===== src/Gotify/Memory.antt =====
-- internal/gotifycompat/store.go, memoryStore: the state and the operations that write messages.
-- Every method holds the mutex throughout, so an operation is a function of the store; `now` is
-- what time.Now().Unix() returns inside it.
pub mod Frame
pub mod Valid
pub mod Log
pub mod Sweeps
pub mod Outcomes
pub mod Keeps
pub mod Shrinks
pub mod Logged
pub mod Run
pub mod Tombstones
pub mod Expiry
pub mod Purges
pub mod Reads
mod Tests
use mathlib.Core.List.{reverse}
use text.Mathlib.Text.{◌==◌ as str_eq}
use timelynotify_server.Base.{
  ℕ, String, Bool, true, false, ◌&&◌, ◌||◌, List, [], ◌∷◌, ◌++◌, Option, none, some, ℤ, pos,
  is_pos_ℤ, is_zero_ℤ, Text, nat_eq, ltb, if◌then◌else◌, ◌==◌, nat_key, string_key, text_key,
  length,
}
use timelynotify_server.Base.Ascending.{remove_id}
use timelynotify_server.Base.Dict
use timelynotify_server.Base.Dict.{Dict}
use timelynotify_server.Gotify.Model.{
  Message, source_device, extra_id_of, DeletionKind, single, purge, reset, by_extra_id,
  DeletionRecord, single_row, extra_row, succ_uint64,
}

pub record MemoryStore : Type 0 where
  pub seq : ℕ
  pub max : ℕ
  pub msgs : Dict ℕ Message
  pub order : List ℕ
  pub expires : Dict ℕ ℤ
  pub del_seq : ℕ
  pub dels : List DeletionRecord
  pub del_msg : Dict String (Dict ℕ ℕ)

abbrev pub new_memory_store : ℕ → MemoryStore
new_memory_store max = record {
  seq = 0;
  max = max;
  msgs = Dict.empty;
  order = [];
  expires = Dict.empty;
  del_seq = 0;
  dels = [];
  del_msg = Dict.empty;
}

-- The zero value that a read of a missing map entry returns.
abbrev pub zero_message : Message
zero_message = record {
  id = 0;
  app_id = 0;
  title = "";
  message = "";
  priority = pos 0;
  extras = Dict.empty;
  date = "";
  device_key = "";
  expires_at = pos 0;
}

pub or_zero : Option Message → Message
or_zero none = zero_message
or_zero (some m) = m

-- s.msgs[id]
unfoldable pub message_at : MemoryStore → ℕ → Message
unfolding or_zero
message_at s id = or_zero (Dict.get s.msgs id)

abbrev pub is_single : DeletionKind → Bool
is_single single = true
is_single _ = false

module _ {ℓ} {V : Type ℓ} where
  abbrev pub or_empty : Option (Dict ℕ V) → Dict ℕ V
  or_empty none = Dict.empty
  or_empty (some d) = d

-- s.delMsg[device][id]; a missing inner map has no entries.
unfoldable pub cursor_of : Dict String (Dict ℕ ℕ) → String → ℕ → Option ℕ
cursor_of d device id = Dict.get (or_empty (Dict.get d device)) id

unfoldable pub set_cursor : Dict String (Dict ℕ ℕ) → String → ℕ → ℕ → Dict String (Dict ℕ ℕ)
set_cursor d device id cursor =
    Dict.put d device (Dict.put (or_empty (Dict.get d device)) id cursor)

-- The record with its time filled in.
unfoldable pub stamped : ℤ → DeletionRecord → DeletionRecord
stamped now r = if is_zero_ℤ r.created_at then record r { created_at = now } else r

-- The row is appended with the next cursor, and indexed if it is a single deletion.
unfoldable pub append_row : DeletionRecord → MemoryStore → ℕ × MemoryStore
append_row r s =
    let id = succ_uint64 s.del_seq in
    (
      id,
      record s {
        del_seq = id;
        dels = s.dels ++ record r { id = id } ∷ [];
        del_msg =
            if is_single r.kind
            then set_cursor s.del_msg r.device_key r.message_id id
            else s.del_msg;
      },
    )

unfoldable pub add_deletion : ℤ → DeletionRecord → MemoryStore → ℕ × MemoryStore
unfolding stamped append_row
add_deletion now r s =
    elim (if is_single r.kind then cursor_of s.del_msg r.device_key r.message_id else none) [
      | some existing ↦ (existing, s)
      | none ↦ append_row (stamped now r) s
    ]

unfoldable pub remove_locked : ℕ → MemoryStore → MemoryStore
unfolding remove_id
remove_locked id s = record s {
  msgs = Dict.del s.msgs id;
  expires = Dict.del s.expires id;
  order = remove_id id s.order;
}

-- `removeLocked` and its tombstone, as every deletion of one message does it.
unfoldable pub remove_logged : ℤ → ℕ → MemoryStore → MemoryStore
unfolding remove_locked add_deletion message_at
remove_logged now id s =
    (add_deletion now (single_row (source_device (message_at s id)) id) (remove_locked id s)).1

unfoldable pub evict_first : ℤ → List ℕ → MemoryStore → MemoryStore
unfolding remove_logged
evict_first now [] s = s
evict_first now (old ∷ _) s = remove_logged now old s

unfoldable pub evict_oldest : ℤ → MemoryStore → MemoryStore
unfolding evict_first
evict_oldest now s = evict_first now s.order s

-- A message is stored under its id, and its deadline is noted.
unfoldable pub store_message : ℕ → Message → MemoryStore → MemoryStore
store_message id m s = record s {
  msgs = Dict.put s.msgs id (record m { id = id });
  expires = if is_pos_ℤ m.expires_at then Dict.put s.expires id m.expires_at else s.expires;
}

unfoldable pub evict_if_over : ℤ → MemoryStore → MemoryStore
unfolding evict_oldest
evict_if_over now s = if ltb s.max (length s.order) then evict_oldest now s else s

unfoldable pub append_message : ℕ → Message → MemoryStore → MemoryStore
unfolding store_message
append_message id m s =
    let stored = store_message id m s in record stored { seq = id; order = s.order ++ id ∷ [] }

unfoldable pub add : ℤ → Message → MemoryStore → ℕ × MemoryStore
unfolding append_message evict_if_over
add now m s = let id = succ_uint64 s.seq in (id, evict_if_over now (append_message id m s))

-- The scan over `ids`, newest first, for a message of the device with the extras.id.
unfoldable pub find_extra : MemoryStore → String → Text → List ℕ → Option ℕ
unfolding message_at
find_extra s device extra_id [] = none
find_extra s device extra_id (id ∷ ids) =
    let rest = find_extra s device extra_id ids in
    let m = message_at s id in
    if (source_device m == device) && (extra_id_of m == extra_id) then some id else rest

unfoldable pub upsert_by_extra_id :
    ℤ → String → Text → Message → MemoryStore → (ℕ × Bool) × MemoryStore
unfolding find_extra store_message add
upsert_by_extra_id now device extra_id m s =
    if (extra_id == []) || str_eq device ""
    then (let (id, s') = add now m s in ((id, false), s'))
    else elim (find_extra s device extra_id (reverse s.order)) [
      | some id ↦ ((id, true), store_message id m s)
      | none ↦ let (id, s') = add now m s in ((id, false), s')
    ]

-- The device filter of the reads and deletes: "" accepts every message.
unfoldable pub of_device : String → Message → Bool
of_device device m = str_eq device "" || (source_device m == device)

unfoldable pub delete_scoped : ℤ → ℕ → String → MemoryStore → Bool × MemoryStore
unfolding of_device remove_logged
delete_scoped now id device s = elim (Dict.get s.msgs id) [
  | none ↦ (false, s)
  | some m ↦ if of_device device m then (true, remove_logged now id s) else (false, s)
]

unfoldable pub delete_by_extra_id : ℤ → String → Text → MemoryStore → Bool × MemoryStore
unfolding find_extra remove_logged add_deletion
delete_by_extra_id now device extra_id s =
    let found = find_extra s device extra_id (reverse s.order) in
    let s' : MemoryStore = elim found [ none ↦ s | some id ↦ remove_logged now id s ] in
    let existed : Bool = elim found [ none ↦ false | some _ ↦ true ] in
    (existed, (add_deletion now (extra_row device extra_id) s').1)
