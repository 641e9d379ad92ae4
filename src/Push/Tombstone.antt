-- ===== src/Push/Tombstone.antt =====
-- A deletion by push, over the history of memoryStore.
use mathlib.Core.List.{reverse}
use timelynotify_server.Base.{
  String, List, [], ◌∷◌, ◌++◌, ℤ, Text, codes, ◌≡◌, refl, inl, inr, Option-cases,
}
use timelynotify_server.Gotify.Model.{DeletionRecord, by_extra_id, extra_row}
use timelynotify_server.Gotify.Memory.{
  MemoryStore, delete_by_extra_id, add_deletion, append_row, stamped, find_extra, remove_logged,
}
use timelynotify_server.Push.Message.{PushMessage}
use timelynotify_server.Push.Deliver.{Env, World}
use timelynotify_server.Push.Request.{push_delete}
use timelynotify_server.Push.Refusals.{IsRefusal, push_delete-Settled}

-- The log ends in a row that tells the device to drop its message with the id.
pub record EndsIn (device : String) (id : Text) (dels : List DeletionRecord) : Type 0 where
  pub before : List DeletionRecord
  pub row : DeletionRecord
  pub split : dels ≡ before ++ row ∷ []
  pub device_key : row.device_key ≡ device
  pub kind : row.kind ≡ by_extra_id
  pub extra_id : row.extra_id ≡ id

add_deletion-EndsIn :
    (now : ℤ) (device : String) (id : Text) (s : MemoryStore)
    → EndsIn device id (add_deletion now (extra_row device id) s).1.dels
unfolding add_deletion append_row stamped
add_deletion-EndsIn now device id s = record {
  before = s.dels;
  row = _;
  split = refl;
  device_key = refl;
  kind = refl;
  extra_id = refl;
}

delete_by_extra_id-EndsIn :
    (now : ℤ) (device : String) (id : Text) (s : MemoryStore)
    → EndsIn device id (delete_by_extra_id now device id s).1.dels
unfolding delete_by_extra_id
delete_by_extra_id-EndsIn now device id s =
    elim (Option-cases (find_extra s device id (reverse s.order))) [
      | inl e ↦ rw (e, delete_by_extra_id) (add_deletion-EndsIn now device id s)
      | inr (found, e) ↦
          rw (e, delete_by_extra_id) (add_deletion-EndsIn now device id (remove_logged now found s))
    ]

-- The removal that pushDelete asks the history for, DeleteByExtraID of memoryStore at a time.
abbrev pub remove_at : ℤ → String → String → MemoryStore → MemoryStore
remove_at now device id s = (delete_by_extra_id now device (codes id) s).1

-- A deletion that is not refused leaves the tombstone for the id at the end of the device's log, even
-- where no push service could be reached and where the history had no such message. The history is a
-- memoryStore.
pub push_delete-EndsIn :
    {R : Type 0} (env : Env R MemoryStore) (now : ℤ)
    → env.remove ≡ remove_at now
    → (p : PushMessage) (w : World R MemoryStore) → ¬ IsRefusal (push_delete env p w).0
    → EndsIn p.device_key (codes p.id) (push_delete env p w).1.history.dels
push_delete-EndsIn env now same p w served = elim (push_delete-Settled env p w) [
  | inl (refused, _) ↦ absurd (served refused)
  | inr (_, cleaned) ↦
      rw (cleaned, same) (delete_by_extra_id-EndsIn now p.device_key (codes p.id) w.history)
]
