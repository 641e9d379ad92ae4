-- ===== src/Gotify/Memory/Logged/Calls.antt =====
-- The calls of memoryStore and the invariant of its deletion log.
use timelynotify_server.Base.{
  ℕ, suc, ◌+◌, ◌^◌, ◌≤◌, ◌<◌, String, List, [], ◌∷◌, ℤ, pos, ◌-ℤ◌, ◌≡◌, refl, arith, length, Text,
  ltb, nat_eq, Bool-cases, Option-cases, inl, inr, nat_key, string_key,
}
use timelynotify_server.Base.Dict
use timelynotify_server.Base.Dict.{Dict}
use timelynotify_server.Gotify.Model.{
  Message, DeletionRecord, extra_row, single_row, reset_row, purge_row, source_device, succ_uint64,
  retention,
}
use timelynotify_server.Gotify.Memory
use timelynotify_server.Gotify.Memory.{
  MemoryStore, message_at, add_deletion, append_row, stamped, remove_locked, remove_logged,
  evict_if_over, evict_first, evict_oldest, append_message, store_message, upsert_by_extra_id,
  delete_scoped, delete_by_extra_id,
}
use timelynotify_server.Gotify.Memory.Sweeps.{
  due_ids, expire_one, expire_loop, expire_messages, sorted_devices, add_resets, collect, prune,
  cleanup_deletions, ceiling_of, remove_all, add_purges, apply_wipe, wipe_of, delete_all_by_device,
}
use timelynotify_server.Gotify.Memory.Outcomes.{
  upsert_outcome, delete_scoped_outcome, delete_by_extra_id_outcome,
}
use timelynotify_server.Gotify.Memory.Run.{
  Call, upsert, delete, delete_extra, delete_all, expire, cleanup, step, run,
}
use timelynotify_server.Gotify.Memory.Logged.{
  IsLogged, IsLogged-same, add_deletion_outcome, add_deletion-IsLogged,
}
use timelynotify_server.Gotify.Memory.Logged.Prune.{collect-IsLogged}

-- From `s` to `t`, at most `k` rows are logged.
abbrev pub Logs : ℕ → MemoryStore → MemoryStore → Type 0
Logs k s t = s.del_seq + k < 2 ^ 64 → IsLogged s → IsLogged t × (t.del_seq ≤ s.del_seq + k)

Logs-same :
    (s t : MemoryStore)
    → t.del_seq ≡ s.del_seq
    → t.dels ≡ s.dels
    → t.del_msg ≡ s.del_msg
    → Logs 0 s t
Logs-same s t seq rows index room v = (IsLogged-same s t seq rows index v, omega arith)

Logs-trans : (j k : ℕ) (s t u : MemoryStore) → Logs j s t → Logs k t u → Logs (j + k) s u
Logs-trans j k s t u f g room v =
    let (w, first) = f (omega arith) v in let (x, second) = g (omega arith) w in (x, omega arith)

Logs-after : (k : ℕ) (s t u : MemoryStore) → Logs 0 s t → Logs k t u → Logs k s u
Logs-after k s t u f g room v =
    let (w, first) = f (omega arith) v in let (x, second) = g (omega arith) w in (x, omega arith)

Logs-suc : (k : ℕ) (s t u : MemoryStore) → Logs 1 s t → Logs k t u → Logs (suc k) s u
Logs-suc k s t u f g room v =
    let (w, first) = f (omega arith) v in let (x, second) = g (omega arith) w in (x, omega arith)

Logs-le : (j k : ℕ) (s t : MemoryStore) → j ≤ k → Logs j s t → Logs k s t
Logs-le j k s t h f room v = let (w, first) = f (omega arith) v in (w, omega arith)

pub add_deletion-Logs :
    (now : ℤ) (r : DeletionRecord) (s : MemoryStore) → Logs 1 s (add_deletion now r s).1
unfolding append_row
add_deletion-Logs now r s room v = (
  add_deletion-IsLogged now r s room v,
  elim (add_deletion_outcome now r s) [
    | inl (c, e, old, same) ↦ rw same (omega arith)
    | inr (new, appended) ↦ rw appended (omega arith)
  ],
)

pub remove_logged-Logs : (now : ℤ) (id : ℕ) (s : MemoryStore) → Logs 1 s (remove_logged now id s)
unfolding remove_logged remove_locked
remove_logged-Logs now id s =
    let r = single_row (source_device (message_at s id)) id in
    let s' = remove_locked id s in
    Logs-after 1 s s' (add_deletion now r s').1 (Logs-same s s' refl refl refl)
      (add_deletion-Logs now r s')

evict_first-Logs : (now : ℤ) (ids : List ℕ) (s : MemoryStore) → Logs 1 s (evict_first now ids s)
unfolding evict_first
evict_first-Logs now [] s = Logs-le 0 1 s s (omega arith) (Logs-same s s refl refl refl)
evict_first-Logs now (id ∷ ids) s = remove_logged-Logs now id s

evict_if_over-Logs : (now : ℤ) (s : MemoryStore) → Logs 1 s (evict_if_over now s)
unfolding evict_if_over evict_oldest
evict_if_over-Logs now s = elim (Bool-cases (ltb s.max (length s.order))) [
  | inl over ↦ rw over (evict_first-Logs now s.order s)
  | inr fits ↦ rw fits (Logs-le 0 1 s s (omega arith) (Logs-same s s refl refl refl))
]

add-Logs : (now : ℤ) (m : Message) (s : MemoryStore) → Logs 1 s (Memory.add now m s).1
unfolding Memory.add append_message store_message
add-Logs now m s =
    let s' = append_message (succ_uint64 s.seq) m s in
    Logs-after 1 s s' (evict_if_over now s') (Logs-same s s' refl refl refl)
      (evict_if_over-Logs now s')

upsert-Logs :
    (now : ℤ) (device : String) (extra_id : Text) (m : Message) (s : MemoryStore)
    → Logs 1 s (upsert_by_extra_id now device extra_id m s).1
unfolding store_message
upsert-Logs now device extra_id m s = elim (upsert_outcome now device extra_id m s) [
  | inl e ↦ rw e (add-Logs now m s)
  | inr (id, stored, found, e) ↦ rw e (
      Logs-le 0 1 s (store_message id m s) (omega arith)
        (Logs-same s (store_message id m s) refl refl refl))
]

delete_scoped-Logs :
    (now : ℤ) (id : ℕ) (device : String) (s : MemoryStore)
    → Logs 1 s (delete_scoped now id device s).1
delete_scoped-Logs now id device s = elim (delete_scoped_outcome now id device s) [
  | inl e ↦ rw e (Logs-le 0 1 s s (omega arith) (Logs-same s s refl refl refl))
  | inr (m, found, own, e) ↦ rw e (remove_logged-Logs now id s)
]

delete_by_extra_id-Logs :
    (now : ℤ) (device : String) (extra_id : Text) (s : MemoryStore)
    → Logs 2 s (delete_by_extra_id now device extra_id s).1
delete_by_extra_id-Logs now device extra_id s =
    let r = extra_row device extra_id in
    elim (delete_by_extra_id_outcome now device extra_id s) [
      | inl (none_found, e) ↦
          rw e (Logs-le 1 2 s (add_deletion now r s).1 (omega arith) (add_deletion-Logs now r s))
      | inr (id, stored, found, e) ↦
          let s' = remove_logged now id s in
          rw e (
            Logs-trans 1 1 s s' (add_deletion now r s').1 (remove_logged-Logs now id s)
              (add_deletion-Logs now r s'))
    ]

expire_one-Logs : (clock : ℤ) (id n : ℕ) (s : MemoryStore) → Logs 1 s (expire_one clock id (n, s)).1
unfolding expire_one
expire_one-Logs clock id n s = elim (Option-cases (Dict.get s.msgs id)) [
  | inl e ↦
      let s' = record s { expires = Dict.del s.expires id } in
      rw (e, expire_one) (Logs-le 0 1 s s' (omega arith) (Logs-same s s' refl refl refl))
  | inr (m, e) ↦ rw (e, expire_one) (remove_logged-Logs clock id s)
]

expire_loop-Logs :
    (clock : ℤ) (ids : List ℕ) (acc : ℕ × MemoryStore)
    → Logs (length ids) acc.1 (expire_loop clock ids acc).1
unfolding expire_loop
expire_loop-Logs clock [] acc = Logs-same acc.1 acc.1 refl refl refl
expire_loop-Logs clock (id ∷ ids) (n, s) =
    let next = expire_one clock id (n, s) in
    Logs-suc (length ids) s next.1 (expire_loop clock ids next).1 (expire_one-Logs clock id n s)
      (expire_loop-Logs clock ids next)

add_resets-Logs :
    (clock now : ℤ) (ds : List String) (s : MemoryStore)
    → Logs (length ds) s (add_resets clock now ds s)
unfolding add_resets
add_resets-Logs clock now [] s = Logs-same s s refl refl refl
add_resets-Logs clock now (d ∷ ds) s =
    let s' = (add_deletion clock (reset_row d now) s).1 in
    Logs-suc (length ds) s s' (add_resets clock now ds s')
      (add_deletion-Logs clock (reset_row d now) s) (add_resets-Logs clock now ds s')

add_purges-Logs :
    (clock : ℤ) (ceiling : Dict String ℕ) (ds : List String) (s : MemoryStore)
    → Logs (length ds) s (add_purges clock ceiling ds s)
unfolding add_purges
add_purges-Logs clock ceiling [] s = Logs-same s s refl refl refl
add_purges-Logs clock ceiling (d ∷ ds) s =
    let r = purge_row d (ceiling_of ceiling d) in
    let s' = (add_deletion clock r s).1 in
    Logs-suc (length ds) s s' (add_purges clock ceiling ds s') (add_deletion-Logs clock r s)
      (add_purges-Logs clock ceiling ds s')

remove_all-Logs : (ids : List ℕ) (s : MemoryStore) → Logs 0 s (remove_all ids s)
unfolding remove_all remove_locked
remove_all-Logs [] s = Logs-same s s refl refl refl
remove_all-Logs (id ∷ ids) s =
    let s' = remove_locked id s in
    Logs-after 0 s s' (remove_all ids s') (Logs-same s s' refl refl refl) (remove_all-Logs ids s')

apply_wipe-Logs :
    (clock : ℤ) (ceiling : Dict String ℕ) (ids : List ℕ) (s : MemoryStore)
    → Logs (length (sorted_devices ceiling)) s (apply_wipe clock ceiling ids s)
unfolding apply_wipe
apply_wipe-Logs clock ceiling [] s =
    Logs-le 0 (length (sorted_devices ceiling)) s s (omega arith) (Logs-same s s refl refl refl)
apply_wipe-Logs clock ceiling (id ∷ ids) s =
    let ds = sorted_devices ceiling in
    let s' = remove_all (id ∷ ids) s in
    Logs-after (length ds) s s' (add_purges clock ceiling ds s') (remove_all-Logs (id ∷ ids) s)
      (add_purges-Logs clock ceiling ds s')

pub cleanup_deletions-Logs :
    (clock now : ℤ) (s : MemoryStore)
    → Logs
        (length (sorted_devices (collect (now -ℤ pos retention) s).affected))
        s
        (cleanup_deletions clock now s).1
unfolding cleanup_deletions prune
cleanup_deletions-Logs clock now s =
    let a = collect (now -ℤ pos retention) s in
    let ds = sorted_devices a.affected in
    let s' : MemoryStore = record s { dels = a.fresh; del_msg = a.del_msg } in
    elim (Bool-cases (nat_eq a.removed 0)) [
      | inl nothing ↦
          rw nothing (Logs-le 0 (length ds) s s (omega arith) (Logs-same s s refl refl refl))
      | inr some_old ↦ rw some_old (
          Logs-after (length ds) s s' (add_resets clock now ds s')
            (λ room v. (collect-IsLogged (now -ℤ pos retention) s v, omega arith))
            (add_resets-Logs clock now ds s'))
    ]

-- How many rows a call may log, at most.
unfoldable pub row_bound : Call → MemoryStore → ℕ
row_bound (Call.add m) s = 1
row_bound (upsert device extra_id m) s = 1
row_bound (delete device id) s = 1
row_bound (delete_extra device extra_id) s = 2
row_bound (delete_all device) s = length (sorted_devices (wipe_of device s).ceiling)
row_bound (expire now) s = length (due_ids s.expires now s.order)
row_bound (cleanup now) s = length (sorted_devices (collect (now -ℤ pos retention) s).affected)

pub step-Logs : (clock : ℤ) (c : Call) (s : MemoryStore) → Logs (row_bound c s) s (step clock c s)
unfolding step row_bound delete_all_by_device expire_messages
step-Logs clock (Call.add m) s = add-Logs clock m s
step-Logs clock (upsert device extra_id m) s = upsert-Logs clock device extra_id m s
step-Logs clock (delete device id) s = delete_scoped-Logs clock id device s
step-Logs clock (delete_extra device extra_id) s = delete_by_extra_id-Logs clock device extra_id s
step-Logs clock (delete_all device) s =
    let w = wipe_of device s in apply_wipe-Logs clock w.ceiling w.to_remove s
step-Logs clock (expire now) s = expire_loop-Logs clock (due_ids s.expires now s.order) (0, s)
step-Logs clock (cleanup now) s = cleanup_deletions-Logs clock now s

-- How many rows the calls may log, at most.
unfoldable pub row_bounds : List (ℤ × Call) → MemoryStore → ℕ
unfolding row_bound
row_bounds [] s = 0
row_bounds ((clock, c) ∷ calls) s = row_bound c s + row_bounds calls (step clock c s)

-- Whatever the calls, the deletion log keeps its invariant, as long as the rows that the calls may
-- log cannot exhaust the uint64 counter: cursors ascend, no message has two rows, and the index
-- finds exactly the rows of single messages.
pub run-IsLogged :
    (calls : List (ℤ × Call)) (s : MemoryStore)
    → s.del_seq + row_bounds calls s < 2 ^ 64
    → IsLogged s
    → IsLogged (run calls s)
unfolding run row_bounds
run-IsLogged [] s h v = v
run-IsLogged ((clock, c) ∷ calls) s h v =
    let (w, more) = step-Logs clock c s (omega arith) v in
    run-IsLogged calls (step clock c s) (omega arith) w
