-- ===== src/Gotify/Bolt.antt =====
-- internal/gotifycompat/store.go, bboltStore: the buckets and the operations that write messages. A
-- transaction is a function of the buckets; none is an error, on which bbolt leaves them as they were.
-- `now` is what time.Now().Unix() returns inside a transaction.
pub mod Table
pub mod Keys
pub mod Reads
pub mod Log
pub mod Sweeps
pub mod Entries
pub mod Mirror
mod Tests
use mathlib.Core.List.{reverse}
use text.Mathlib.Text.{◌==◌ as str_eq}
use timelynotify_server.Base.{
  ℕ, ◌+◌, ◌-◌, String, Bool, true, false, ◌&&◌, ◌||◌, not, List, [], ◌∷◌, ◌++◌, Option, none, some,
  ℤ, pos, is_pos_ℤ, is_zero_ℤ, pos_part, Text, nat_eq, ltb, if◌then◌else◌, ◌==◌, text_key,
  string_key, ◌>>=◌, is_some,
}
use timelynotify_server.Base.Dict
use timelynotify_server.Base.Dict.{Dict}
use timelynotify_server.Gotify.Model.{
  Message, source_device, extra_id_of, DeletionKind, DeletionRecord, single_row, extra_row,
  succ_uint64,
}
use timelynotify_server.Gotify.Memory.{is_single, stamped, cursor_of, set_cursor, of_device}
use timelynotify_server.Gotify.Bolt.Table

-- encoding/json on messages and rows, with what bbolt's Put says to the sizes: none is an error. `fits`
-- is its check of a key that holds a device.
pub record Format (B : Type 0) : Type 0 where
  pub encode : Message → Option B
  pub decode : B → Option Message
  pub encode_row : DeletionRecord → Option B
  pub decode_row : B → Option DeletionRecord
  pub fits : String → Bool

-- The buckets. A sequence is the number that the next id comes after.
pub record BoltStore (B : Type 0) : Type 0 where
  pub max : ℕ
  pub seq : ℕ
  pub msgs : List (ℕ × B)
  pub dev_msgs : List (ℕ × String)
  pub ttl : List (ℕ × ℕ)
  pub count : ℕ
  pub del_seq : ℕ
  pub dels : List (ℕ × B)
  pub del_dev : List (ℕ × String)
  pub del_msg : Dict String (Dict ℕ ℕ)
  pub token_hash : Text
  pub auto_token : Text

-- The buckets that openBboltStore creates.
abbrev pub new_bolt_store : {B : Type 0} → ℕ → BoltStore B
new_bolt_store max = record {
  max = max;
  seq = 0;
  msgs = [];
  dev_msgs = [];
  ttl = [];
  count = 0;
  del_seq = 0;
  dels = [];
  del_dev = [];
  del_msg = Dict.empty;
  token_hash = [];
  auto_token = [];
}

abbrev pub with_id : Message → ℕ → Message
with_id m id = record m { id = id }

-- count--, unless it is 0.
abbrev pub less_one : ℕ → ℕ
less_one n = n - 1

-- Delete of the message, and indexMessageRemove
unfoldable pub remove_message : {B : Type 0} → String → ℕ → BoltStore B → BoltStore B
remove_message device id s = record s {
  msgs = Table.del s.msgs id;
  dev_msgs = Table.index_del s.dev_msgs id device;
  ttl = Table.del s.ttl id;
}

module _ {B : Type 0} (format : Format B) where
  -- Put under a key that holds the device.
  unfoldable pub put_pair : List (ℕ × String) → ℕ → String → Option (List (ℕ × String))
  put_pair t id device = if format.fits device then some (Table.index_put t id device) else none

  -- putDeletionTx
  unfoldable pub put_deletion : DeletionRecord → ℕ → Bool → BoltStore B → Option (BoltStore B)
  unfolding put_pair
  put_deletion r id unique s = do
    raw ← format.encode_row (record r { id = id })
    pairs ← put_pair s.del_dev id r.device_key
    some (record s {
      dels = Table.put s.dels id raw;
      del_dev = pairs;
      del_msg = if unique then set_cursor s.del_msg r.device_key r.message_id id else s.del_msg;
    })

  -- The row takes the next number of the sequence.
  unfoldable pub next_deletion : DeletionRecord → BoltStore B → Option (ℕ × BoltStore B)
  unfolding put_deletion
  next_deletion r s = do
    let id = succ_uint64 s.del_seq
    s' ← put_deletion r id (is_single r.kind) (record s { del_seq = id })
    some (id, s')

  -- addDeletionTx
  unfoldable pub add_deletion_tx : ℤ → DeletionRecord → BoltStore B → Option (ℕ × BoltStore B)
  unfolding next_deletion
  add_deletion_tx now r s =
      elim (if is_single r.kind then cursor_of s.del_msg r.device_key r.message_id else none) [
        | some existing ↦ some (existing, s)
        | none ↦ next_deletion (stamped now r) s
      ]

  -- indexMessagePut
  unfoldable pub index_message_put : Message → BoltStore B → Option (BoltStore B)
  unfolding put_pair
  index_message_put m s = do
    pairs ← put_pair s.dev_msgs m.id (source_device m)
    some (record s {
      dev_msgs = pairs;
      ttl = if is_pos_ℤ m.expires_at then Table.put s.ttl m.id (pos_part m.expires_at) else s.ttl;
    })

  -- A message goes, and its tombstone comes.
  unfoldable pub remove_logged_tx : ℤ → String → ℕ → BoltStore B → Option (BoltStore B)
  unfolding remove_message add_deletion_tx
  remove_logged_tx now device id s = do
    (_, s') ← add_deletion_tx now (single_row device id) (remove_message device id s)
    some s'

  -- evictOldestLocked, and whether it removed a message
  unfoldable pub evict_oldest_locked : ℤ → List (ℕ × B) → BoltStore B → Option (Bool × BoltStore B)
  unfolding remove_logged_tx
  evict_oldest_locked now [] s = some (false, s)
  evict_oldest_locked now ((id, raw) ∷ _) s = do
    m ← format.decode raw
    s' ← remove_logged_tx now (source_device (with_id m id)) id s
    some (true, s')

  -- The count after a message was added: the oldest one goes if there are too many.
  unfoldable pub settle_count : ℤ → BoltStore B → Option (BoltStore B)
  unfolding evict_oldest_locked
  settle_count now s =
      let count = succ_uint64 s.count in
      if ltb s.max count
      then (do
        (evicted, s') ← evict_oldest_locked now s.msgs s
        some (record s' { count = if evicted then less_one count else count }))
      else some (record s { count = count })

  -- The body of Add.
  unfoldable pub add : ℤ → Message → BoltStore B → Option (ℕ × BoltStore B)
  unfolding index_message_put settle_count
  add now m s = do
    let id = succ_uint64 s.seq
    raw ← format.encode (with_id m id)
    s1 ← index_message_put (with_id m id) (record s { seq = id; msgs = Table.put s.msgs id raw })
    s2 ← settle_count now s1
    some (id, s2)

  -- The scan of the messages, newest first; rows that cannot be decoded are passed over.
  unfoldable pub find_extra : String → Text → List (ℕ × B) → Option ℕ
  find_extra device extra_id [] = none
  find_extra device extra_id ((id, raw) ∷ t) =
      let rest = find_extra device extra_id t in
      elim (format.decode raw) [
        | none ↦ rest
        | some m ↦
            if (source_device m == device) && (extra_id_of m == extra_id) then some id else rest
      ]

  -- The message takes the place of the one with the id; the deadline is written if there is one.
  unfoldable pub overwrite : ℕ → Message → BoltStore B → Option (BoltStore B)
  overwrite id m s = do
    raw ← format.encode (with_id m id)
    some (record s {
      msgs = Table.put s.msgs id raw;
      ttl = if is_pos_ℤ m.expires_at then Table.put s.ttl id (pos_part m.expires_at) else s.ttl;
    })

  -- UpsertByExtraID
  unfoldable pub upsert_by_extra_id :
      ℤ → String → Text → Message → BoltStore B → Option ((ℕ × Bool) × BoltStore B)
  unfolding find_extra overwrite add
  upsert_by_extra_id now device extra_id m s =
      if (extra_id == []) || str_eq device ""
      then (do (id, s') ← add now m s; some ((id, false), s'))
      else elim (find_extra device extra_id (reverse s.msgs)) [
        | some id ↦ do s' ← overwrite id m s; some ((id, true), s')
        | none ↦ do (id, s') ← add now m s; some ((id, false), s')
      ]

  -- The message goes, its tombstone comes, and the count falls.
  unfoldable pub delete_message : ℤ → ℕ → Message → BoltStore B → Option (Bool × BoltStore B)
  unfolding remove_logged_tx
  delete_message now id m s = do
    s' ← remove_logged_tx now (source_device m) id s
    some (true, record s' { count = less_one s.count })

  -- deleteScoped
  unfoldable pub delete_scoped : ℤ → String → ℕ → BoltStore B → Option (Bool × BoltStore B)
  unfolding delete_message
  delete_scoped now device id s = elim (Table.get s.msgs id) [
    | none ↦ some (false, s)
    | some raw ↦ elim (format.decode raw) [
      | none ↦ none
      | some m ↦ if of_device device m then delete_message now id m s else some (false, s)
    ]
  ]

  -- The removal in DeleteByExtraID. A row that is found can be decoded.
  unfoldable pub remove_found : ℤ → Option ℕ → BoltStore B → Option (Bool × BoltStore B)
  unfolding delete_message
  remove_found now none s = some (false, s)
  remove_found now (some id) s = do
    raw ← Table.get s.msgs id
    m ← format.decode raw
    delete_message now id m s

  -- DeleteByExtraID
  unfoldable pub delete_by_extra_id : ℤ → String → Text → BoltStore B → Option (Bool × BoltStore B)
  unfolding find_extra remove_found add_deletion_tx
  delete_by_extra_id now device extra_id s = do
    (existed, s1) ← remove_found now (find_extra device extra_id (reverse s.msgs)) s
    (_, s2) ← add_deletion_tx now (extra_row device extra_id) s1
    some (existed, s2)
