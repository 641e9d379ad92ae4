-- ===== src/Gotify/Memory/Logged/Tombstones.antt =====
-- memoryStore: no message disappears without a row in the deletion log.
use timelynotify_server.Base.{
  ℕ, ◌+◌, ◌^◌, ◌<◌, String, Bool, true, List, some, is_some, ℤ, ◌≡◌, arith, inl, inr, ◌⊎◌, nat_key,
}
use timelynotify_server.Base.Dict
use timelynotify_server.Gotify.Model.{Message, DeletionRecord, source_device}
use timelynotify_server.Gotify.Memory.{MemoryStore}
use timelynotify_server.Gotify.Memory.Valid.{IsValid}
use timelynotify_server.Gotify.Memory.Keeps.{HasRoom}
use timelynotify_server.Gotify.Memory.Run.{Call, step}
use timelynotify_server.Gotify.Memory.Tombstones.{Indexes, removes_singly, step-Indexes}
use timelynotify_server.Gotify.Memory.Logged.{IsLogged, find_single}
use timelynotify_server.Gotify.Memory.Logged.Calls.{row_bound, step-Logs}

-- The log has a row for the deletion of this one message, under the device.
abbrev pub has_tombstone : String → ℕ → List DeletionRecord → Bool
has_tombstone device id rows = is_some (find_single device id rows)

-- From `s` to `t`, every message is kept or has its row in the log, and no such row is lost.
pub record Tracks (s t : MemoryStore) : Type 0 where
  pub kept :
      (id : ℕ) (m : Message)
      → Dict.get s.msgs id ≡ some m
      → (Dict.get t.msgs id ≡ some m) ⊎ (has_tombstone (source_device m) id t.dels ≡ true)
  pub grows :
      (device : String) (id : ℕ)
      → has_tombstone device id s.dels ≡ true
      → has_tombstone device id t.dels ≡ true

Indexes-Tracks : (s t : MemoryStore) → IsLogged s → IsLogged t → Indexes s t → Tracks s t
Indexes-Tracks s t v w i = record {
  kept = λ id m there. elim (i.kept id m there) [
    | inl still ↦ inl still
    | inr gone ↦ inr (ground (arith, gone, w.indexed (source_device m) id))
  ];
  grows = λ device id old.
      ground
        (arith, w.indexed device id, i.grows device id (ground (arith, old, v.indexed device id)));
}

-- No message disappears silently: a call of Add, Delete, DeleteByDevice, DeleteByExtraID or
-- ExpireMessages keeps every message as it is, or the deletion log has a row for its deletion under its
-- device, and the log loses no such row. The store is valid, its log meets its invariant, its id
-- counter is not exhausted, and that of the log has room for the rows of the call.
pub step-Tracks :
    (clock : ℤ) (c : Call) (s : MemoryStore)
    → removes_singly c ≡ true
    → HasRoom s.seq
    → s.del_seq + row_bound c s < 2 ^ 64
    → IsValid s
    → IsLogged s
    → Tracks s (step clock c s)
step-Tracks clock c s single room rows v logged =
    Indexes-Tracks s (step clock c s) logged (step-Logs clock c s rows logged).0
      (step-Indexes clock c s single room v)
