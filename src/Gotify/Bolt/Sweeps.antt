-- ===== src/Gotify/Bolt/Sweeps.antt =====
-- internal/gotifycompat/store.go, bboltStore: ExpireMessages, CleanupDeletions and DeleteAllByDevice.
use timelynotify_server.Base.{
  ℕ, ◌+◌, ◌-◌, String, true, false, List, [], ◌∷◌, Option, none, some, ℤ, pos, ◌-ℤ◌, leb,
  if◌then◌else◌, ◌>>=◌, length, string_key, nat_key,
}
use timelynotify_server.Base.Dict
use timelynotify_server.Base.Dict.{Dict}
use timelynotify_server.Gotify.Model.{
  source_device, DeletionRecord, retention, purge_row, reset_row,
}
use timelynotify_server.Gotify.Memory.{is_single}
use timelynotify_server.Gotify.Memory.Sweeps.{
  is_old, sorted_devices, clear_cursor, ceiling_of, Wipe, wipe_one,
}
use timelynotify_server.Gotify.Bolt.{
  Format, BoltStore, less_one, remove_message, remove_logged_tx, add_deletion_tx,
}
use timelynotify_server.Gotify.Bolt.Table

-- The ids of the deadlines that have come.
unfoldable pub due_ids : ℕ → List (ℕ × ℕ) → List ℕ
due_ids deadline [] = []
due_ids deadline ((id, t) ∷ l) =
    let rest = due_ids deadline l in if leb t deadline then id ∷ rest else rest

module _ {B : Type 0} (format : Format B) where
  -- The round for one id, with the number of messages that were removed. The deadline goes in any case.
  unfoldable pub expire_one : ℤ → ℕ → ℕ × BoltStore B → Option (ℕ × BoltStore B)
  expire_one now id (n, s) =
      let s1 : BoltStore B = record s { ttl = Table.del s.ttl id } in
      elim (Table.get s1.msgs id) as (λ _. Option (ℕ × BoltStore B)) [
        | none ↦ some (n, s1)
        | some raw ↦ do
          m ← format.decode raw
          s2 ← remove_logged_tx format now (source_device m) id s1
          some (n + 1, record s2 { count = less_one s2.count })
      ]

  unfoldable pub expire_loop : ℤ → List ℕ → ℕ × BoltStore B → Option (ℕ × BoltStore B)
  unfolding expire_one
  expire_loop now [] r = some r
  expire_loop now (id ∷ ids) r = do r' ← expire_one now id r; expire_loop now ids r'

  -- ExpireMessages at a time that is no negative number of seconds
  unfoldable pub expire_messages : ℤ → ℕ → BoltStore B → Option (ℕ × BoltStore B)
  unfolding expire_loop due_ids
  expire_messages now deadline s = expire_loop now (due_ids deadline s.ttl) (0, s)

  -- The old rows, from the first one on: the walk ends at the first fresh row.
  unfoldable pub old_rows : ℤ → List (ℕ × B) → Option (List DeletionRecord)
  old_rows cutoff [] = some []
  old_rows cutoff ((id, raw) ∷ t) =
      let rest = old_rows cutoff t in
      elim (format.decode_row raw) as (λ _. Option (List DeletionRecord)) [
        | none ↦ none
        | some r ↦ elim (is_old cutoff r) as (λ _. Option (List DeletionRecord)) [
          | false ↦ some []
          | true ↦ do l ← rest; some (record r { id = id } ∷ l)
        ]
      ]

  unfoldable pub affected : List DeletionRecord → Dict String (Unit {0})
  affected [] = Dict.empty
  affected (r ∷ l) = Dict.put (affected l) r.device_key tt

  unfoldable pub add_resets : ℤ → ℤ → List String → BoltStore B → Option (BoltStore B)
  add_resets clock now [] s = some s
  add_resets clock now (d ∷ l) s = do
    (_, s') ← add_deletion_tx format clock (reset_row d now) s
    add_resets clock now l s'

  -- A row goes, with its entries in both indexes.
  unfoldable pub drop_row : DeletionRecord → BoltStore B → BoltStore B
  drop_row r s = record s {
    dels = Table.del s.dels r.id;
    del_dev = Table.index_del s.del_dev r.id r.device_key;
    del_msg =
        if is_single r.kind then clear_cursor s.del_msg r.device_key r.message_id else s.del_msg;
  }

  unfoldable pub drop_rows : List DeletionRecord → BoltStore B → BoltStore B
  unfolding drop_row
  drop_rows [] s = s
  drop_rows (r ∷ l) s = drop_rows l (drop_row r s)

  -- CleanupDeletions, with the number of rows that were dropped
  unfoldable pub cleanup_deletions : ℤ → ℤ → BoltStore B → Option (ℕ × BoltStore B)
  unfolding old_rows affected add_resets drop_rows
  cleanup_deletions clock now s = do
    old ← old_rows (now -ℤ pos retention) s.dels
    s' ← add_resets clock now (sorted_devices (affected old)) s
    some (length old, drop_rows old s')

  -- The messages to remove, and the largest id for each device that loses one.
  unfoldable pub wipe_loop : String → List (ℕ × B) → Wipe → Option Wipe
  wipe_loop device [] w = some w
  wipe_loop device ((id, raw) ∷ t) w = do
    m ← format.decode raw
    wipe_loop device t (wipe_one device id m w)

  -- The device of a message that is removed.
  owner_of : BoltStore B → ℕ → String
  owner_of s id = elim (Table.get s.msgs id) as (λ _. String) [
    | none ↦ ""
    | some raw ↦ elim (format.decode raw) as (λ _. String) [ none ↦ "" | some m ↦ source_device m ]
  ]

  unfoldable pub remove_all : List ℕ → BoltStore B → BoltStore B
  unfolding owner_of
  remove_all [] s = s
  remove_all (id ∷ ids) s = remove_all ids (remove_message (owner_of s id) id s)

  unfoldable pub add_purges : ℤ → Dict String ℕ → List String → BoltStore B → Option (BoltStore B)
  add_purges now ceiling [] s = some s
  add_purges now ceiling (d ∷ l) s = do
    (_, s') ← add_deletion_tx format now (purge_row d (ceiling_of ceiling d)) s
    add_purges now ceiling l s'

  -- DeleteAllByDevice; "" wipes every device.
  unfoldable pub delete_all_by_device : ℤ → String → BoltStore B → Option (BoltStore B)
  unfolding wipe_loop remove_all add_purges
  delete_all_by_device now device s = do
    w ← wipe_loop device s.msgs (record { to_remove = []; ceiling = Dict.empty })
    s' ← add_purges now w.ceiling (sorted_devices w.ceiling) (remove_all w.to_remove s)
    some (record s' { count = s.count - length w.to_remove })
