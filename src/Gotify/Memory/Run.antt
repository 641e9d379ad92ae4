-- ===== src/Gotify/Memory/Run.antt =====
-- memoryStore under any sequence of calls: the bulk operations keep the messages valid too, and ids
-- only grow.
use timelynotify_server.Base.{
  ℕ, ◌+◌, ◌^◌, ◌≤◌, ◌<◌, String, List, [], ◌∷◌, ℤ, ◌≡◌, refl, ◌∙◌, arith, length, Text, ltb,
  Bool-cases, inl, inr, nat_key,
}
use timelynotify_server.Gotify.Model.{Message, extra_row, succ_uint64}
use timelynotify_server.Gotify.Memory
use timelynotify_server.Gotify.Memory.{
  MemoryStore, message_at, new_memory_store, add_deletion, remove_locked, remove_logged,
  evict_if_over, evict_first, evict_oldest, append_message, store_message, upsert_by_extra_id,
  delete_scoped, delete_by_extra_id,
}
use timelynotify_server.Gotify.Memory.Sweeps.{
  expire_messages, cleanup_deletions, delete_all_by_device,
}
use timelynotify_server.Gotify.Memory.Valid.{IsValid}
use timelynotify_server.Gotify.Memory.Outcomes.{
  upsert_outcome, delete_scoped_outcome, delete_by_extra_id_outcome,
}
use timelynotify_server.Gotify.Memory.Keeps.{
  HasRoom, add-IsValid, upsert_by_extra_id-IsValid, delete_scoped-IsValid,
  delete_by_extra_id-IsValid,
}
use timelynotify_server.Gotify.Memory.Shrinks.{
  Same, Shrinks, Shrinks-refl, Shrinks-trans, Shrinks-IsValid, add_deletion-Shrinks,
  remove_logged-Shrinks, delete_all_by_device-Shrinks, expire_messages-Shrinks,
  cleanup_deletions-Shrinks,
}

-- A call of the store that may change it. The first time is time.Now(), and `now` the time that a
-- sweep is given.
pub data Call : Type 0 where
  add : Message → Call
  upsert : String → Text → Message → Call
  delete : String → ℕ → Call
  delete_extra : String → Text → Call
  delete_all : String → Call
  expire cleanup : ℤ → Call

unfoldable pub step : ℤ → Call → MemoryStore → MemoryStore
step clock (Call.add m) s = (Memory.add clock m s).1
step clock (upsert device extra_id m) s = (upsert_by_extra_id clock device extra_id m s).1
step clock (delete device id) s = (delete_scoped clock id device s).1
step clock (delete_extra device extra_id) s = (delete_by_extra_id clock device extra_id s).1
step clock (delete_all device) s = delete_all_by_device clock device s
step clock (expire now) s = (expire_messages clock now s).1
step clock (cleanup now) s = (cleanup_deletions clock now s).1

unfoldable pub run : List (ℤ × Call) → MemoryStore → MemoryStore
unfolding step
run [] s = s
run ((clock, c) ∷ calls) s = run calls (step clock c s)

pub step-IsValid :
    (clock : ℤ) (c : Call) (s : MemoryStore) → HasRoom s.seq → IsValid s → IsValid (step clock c s)
unfolding step
step-IsValid clock (Call.add m) s h v = add-IsValid clock m s h v
step-IsValid clock (upsert device extra_id m) s h v =
    upsert_by_extra_id-IsValid clock device extra_id m s h v
step-IsValid clock (delete device id) s h v = delete_scoped-IsValid clock id device s v
step-IsValid clock (delete_extra device extra_id) s h v =
    delete_by_extra_id-IsValid clock device extra_id s v
step-IsValid clock (delete_all device) s h v =
    Shrinks-IsValid s (delete_all_by_device clock device s)
      (delete_all_by_device-Shrinks clock device s) v
step-IsValid clock (expire now) s h v =
    Shrinks-IsValid s (expire_messages clock now s).1 (expire_messages-Shrinks clock now s) v
step-IsValid clock (cleanup now) s h v =
    Shrinks-IsValid s (cleanup_deletions clock now s).1 (cleanup_deletions-Shrinks clock now s) v

-- The counter of ids stays or goes up by one.
unfoldable pub Counts : MemoryStore → MemoryStore → Type 0
Counts s t = (s.seq ≤ t.seq) × (t.seq ≤ s.seq + 1)

Shrinks-Counts : (s t : MemoryStore) → Shrinks s t → Counts s t
unfolding Counts
Shrinks-Counts s t f = omega (arith, f.same.seq)

evict_first-Same : (now : ℤ) (ids : List ℕ) (s : MemoryStore) → Same s (evict_first now ids s)
unfolding evict_first
evict_first-Same now [] s = record { seq = refl; max = refl }
evict_first-Same now (old ∷ ids) s = (remove_logged-Shrinks now old s).same

evict_if_over-Same : (now : ℤ) (s : MemoryStore) → Same s (evict_if_over now s)
unfolding evict_if_over evict_oldest
evict_if_over-Same now s = elim (Bool-cases (ltb s.max (length s.order))) [
  | inl e ↦ rw e (evict_first-Same now s.order s)
  | inr e ↦ rw e (record { seq = refl; max = refl })
]

seq-add :
    (now : ℤ) (m : Message) (s : MemoryStore) → (Memory.add now m s).1.seq ≡ (Memory.add now m s).0
unfolding Memory.add append_message
seq-add now m s = (evict_if_over-Same now (append_message (succ_uint64 s.seq) m s)).seq

max-add : (now : ℤ) (m : Message) (s : MemoryStore) → (Memory.add now m s).1.max ≡ s.max
unfolding Memory.add append_message store_message
max-add now m s = (evict_if_over-Same now (append_message (succ_uint64 s.seq) m s)).max

add-Counts :
    (now : ℤ) (m : Message) (s : MemoryStore) → HasRoom s.seq → Counts s (Memory.add now m s).1
unfolding Counts Memory.add
add-Counts now m s h = omega (arith, seq-add now m s)

pub step-Counts :
    (clock : ℤ) (c : Call) (s : MemoryStore) → HasRoom s.seq → Counts s (step clock c s)
unfolding step
step-Counts clock (Call.add m) s h = add-Counts clock m s h
step-Counts clock (upsert device extra_id m) s h = elim (upsert_outcome clock device extra_id m s) [
  | inl e ↦ rw e (add-Counts clock m s h)
  | inr (id, stored, found, e) ↦ rw e (unfold Counts store_message in omega arith)
]
step-Counts clock (delete device id) s h = elim (delete_scoped_outcome clock id device s) [
  | inl e ↦ rw e (Shrinks-Counts s s (Shrinks-refl s))
  | inr (m, found, own, e) ↦
      rw e (Shrinks-Counts s (remove_logged clock id s) (remove_logged-Shrinks clock id s))
]
step-Counts clock (delete_extra device extra_id) s h =
    let r = extra_row device extra_id in
    elim (delete_by_extra_id_outcome clock device extra_id s) [
      | inl (none_found, e) ↦
          rw e (Shrinks-Counts s (add_deletion clock r s).1 (add_deletion-Shrinks clock r s))
      | inr (id, stored, found, e) ↦
          let s' = remove_logged clock id s in
          rw e (
            Shrinks-Counts s (add_deletion clock r s').1 (
              Shrinks-trans s s' (add_deletion clock r s').1 (remove_logged-Shrinks clock id s)
                (add_deletion-Shrinks clock r s')))
    ]
step-Counts clock (delete_all device) s h =
    Shrinks-Counts s (delete_all_by_device clock device s)
      (delete_all_by_device-Shrinks clock device s)
step-Counts clock (expire now) s h =
    Shrinks-Counts s (expire_messages clock now s).1 (expire_messages-Shrinks clock now s)
step-Counts clock (cleanup now) s h =
    Shrinks-Counts s (cleanup_deletions clock now s).1 (cleanup_deletions-Shrinks clock now s)

-- The capacity is fixed.
pub max-step : (clock : ℤ) (c : Call) (s : MemoryStore) → (step clock c s).max ≡ s.max
unfolding step store_message
max-step clock (Call.add m) s = max-add clock m s
max-step clock (upsert device extra_id m) s = elim (upsert_outcome clock device extra_id m s) [
  | inl e ↦ rw e (max-add clock m s)
  | inr (id, stored, found, e) ↦ rw e refl
]
max-step clock (delete device id) s = elim (delete_scoped_outcome clock id device s) [
  | inl e ↦ rw e refl
  | inr (m, found, own, e) ↦ rw e (remove_logged-Shrinks clock id s).same.max
]
max-step clock (delete_extra device extra_id) s =
    let r = extra_row device extra_id in
    elim (delete_by_extra_id_outcome clock device extra_id s) [
      | inl (none_found, e) ↦ rw e (add_deletion-Shrinks clock r s).same.max
      | inr (id, stored, found, e) ↦
          let s' = remove_logged clock id s in
          rw e (
            (add_deletion-Shrinks clock r s').same.max
            ∙ (remove_logged-Shrinks clock id s).same.max)
    ]
max-step clock (delete_all device) s = (delete_all_by_device-Shrinks clock device s).same.max
max-step clock (expire now) s = (expire_messages-Shrinks clock now s).same.max
max-step clock (cleanup now) s = (cleanup_deletions-Shrinks clock now s).same.max

-- Whatever the calls, a valid store stays valid, as long as the calls cannot exhaust the uint64
-- counter of ids: the history never exceeds its capacity, and index, deadlines and ids agree.
pub run-IsValid :
    (calls : List (ℤ × Call)) (s : MemoryStore)
    → s.seq + length calls < 2 ^ 64
    → IsValid s
    → IsValid (run calls s)
unfolding run Counts
run-IsValid [] s h v = v
run-IsValid ((clock, c) ∷ calls) s h v =
    let counts = step-Counts clock c s (omega arith) in
    run-IsValid calls (step clock c s) (omega (arith, counts))
      (step-IsValid clock c s (omega arith) v)

seq-run-le :
    (calls : List (ℤ × Call)) (s : MemoryStore)
    → s.seq + length calls < 2 ^ 64
    → (s.seq ≤ (run calls s).seq) × ((run calls s).seq ≤ s.seq + length calls)
unfolding run Counts
seq-run-le [] s h = omega arith
seq-run-le ((clock, c) ∷ calls) s h =
    omega (arith, step-Counts clock c s (omega arith), seq-run-le calls (step clock c s))

-- An id is never given twice: whatever happens between two calls of Add, the later one returns a
-- larger id, as long as the calls cannot exhaust the uint64 counter.
pub add-run-lt :
    (clock later : ℤ) (m n : Message) (calls : List (ℤ × Call)) (s : MemoryStore)
    → s.seq + length calls + 2 < 2 ^ 64
    → (Memory.add clock m s).0 < (Memory.add later n (run calls (Memory.add clock m s).1)).0
unfolding Memory.add
add-run-lt clock later m n calls s h =
    omega
      (arith, seq-add clock m s, seq-run-le calls (Memory.add clock m s).1, add-Counts clock m s)
