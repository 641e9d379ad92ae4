-- ===== src/Gotify/Memory/Tombstones.antt =====
-- memoryStore: no message disappears without an entry in the index of the deletion log; that the index
-- stands for rows of the log is in Logged/Tombstones.antt.
use timelynotify_server.Base.{
  ℕ, ◌≤◌, ◌<◌, String, Bool, true, false, List, [], ◌∷◌, ◌++◌, some, is_some, ℤ, ◌≡◌, refl, arith,
  length, Text, ltb, nat_eq, Bool-cases, Option-cases, inl, inr, ◌⊎◌, nat_key, string_key, ==_refl,
  take, All,
}
use timelynotify_server.Base.Ascending.{mem, le_of_mem}
use timelynotify_server.Base.Dict
use timelynotify_server.Base.Dict.{Dict, get-put, get-del}
use timelynotify_server.Gotify.Model.{
  Message, DeletionRecord, extra_row, single_row, source_device, succ_uint64,
}
use timelynotify_server.Gotify.Memory
use timelynotify_server.Gotify.Memory.{
  MemoryStore, message_at, or_zero, cursor_of, is_single, add_deletion, append_row, stamped,
  remove_locked, remove_logged, evict_if_over, evict_first, evict_oldest, append_message,
  store_message, delete_scoped, delete_by_extra_id,
}
use timelynotify_server.Gotify.Memory.Frame.{msgs-add_deletion}
use timelynotify_server.Gotify.Memory.Sweeps.{due_ids, expire_one, expire_loop, expire_messages}
use timelynotify_server.Gotify.Memory.Valid.{IsValid}
use timelynotify_server.Gotify.Memory.Keeps.{HasRoom}
use timelynotify_server.Gotify.Memory.Outcomes.{delete_scoped_outcome, delete_by_extra_id_outcome}
use timelynotify_server.Gotify.Memory.Logged.{add_deletion_outcome, cursor_of-set}
use timelynotify_server.Gotify.Memory.Run.{
  Call, upsert, delete, delete_extra, delete_all, expire, cleanup, step,
}

-- From `s` to `t`, every message is kept or is indexed as deleted, and no entry of the index is lost.
pub record Indexes (s t : MemoryStore) : Type 0 where
  pub kept :
      (id : ℕ) (m : Message)
      → Dict.get s.msgs id ≡ some m
      → (Dict.get t.msgs id ≡ some m) ⊎ (is_some (cursor_of t.del_msg (source_device m) id) ≡ true)
  pub grows :
      (device : String) (id : ℕ)
      → is_some (cursor_of s.del_msg device id) ≡ true
      → is_some (cursor_of t.del_msg device id) ≡ true

Indexes-refl : (s : MemoryStore) → Indexes s s
Indexes-refl s = record { kept = λ id m h. inl h; grows = λ device id h. h }

Indexes-trans : (s t u : MemoryStore) → Indexes s t → Indexes t u → Indexes s u
Indexes-trans s t u f g = record {
  kept = λ id m h. elim (f.kept id m h) [
    | inl there ↦ g.kept id m there
    | inr gone ↦ inr (g.grows (source_device m) id gone)
  ];
  grows = λ device id h. g.grows device id (f.grows device id h);
}

add_deletion-grows :
    (now : ℤ) (r : DeletionRecord) (s : MemoryStore) (device : String) (id : ℕ)
    → is_some (cursor_of s.del_msg device id) ≡ true
    → is_some (cursor_of (add_deletion now r s).1.del_msg device id) ≡ true
unfolding append_row
add_deletion-grows now r s device id h = elim (add_deletion_outcome now r s) [
  | inl (c, e, old, same) ↦ rw same h
  | inr (new, appended) ↦ rw appended (
      ground (
        arith,
        h,
        cursor_of-set s.del_msg (stamped now r).device_key device (stamped now r).message_id id
            (succ_uint64 s.del_seq),
      ))
]

-- The entry of a single message is there afterwards, new or old.
pub add_deletion-there :
    (now : ℤ) (device : String) (id : ℕ) (s : MemoryStore)
    → is_some (cursor_of (add_deletion now (single_row device id) s).1.del_msg device id) ≡ true
unfolding append_row stamped
add_deletion-there now device id s = elim (add_deletion_outcome now (single_row device id) s) [
  | inl (c, e, old, same) ↦ rw same (ground (arith, old))
  | inr (new, appended) ↦ rw appended (
      ground (
        arith,
        cursor_of-set s.del_msg device device id id (succ_uint64 s.del_seq),
        ==_refl device,
      ))
]

add_deletion-Indexes :
    (now : ℤ) (r : DeletionRecord) (s : MemoryStore) → Indexes s (add_deletion now r s).1
add_deletion-Indexes now r s = record {
  kept = λ id m h. inl (ground (arith, h, msgs-add_deletion now r s));
  grows = λ device id h. add_deletion-grows now r s device id h;
}

remove_logged-Indexes : (now : ℤ) (id : ℕ) (s : MemoryStore) → Indexes s (remove_logged now id s)
unfolding remove_logged remove_locked message_at or_zero
remove_logged-Indexes now id s =
    let device = source_device (message_at s id) in
    let s' = remove_locked id s in
    record {
      kept = λ j m h. elim (Bool-cases (nat_eq id j)) [
        | inl same ↦ inr (ground (arith, same, h, add_deletion-there now device id s'))
        | inr other ↦ inl (
            ground (
              arith,
              other,
              h,
              msgs-add_deletion now (single_row device id) s',
              get-del s.msgs id j,
            ))
      ];
      grows = λ dev j h. add_deletion-grows now (single_row device id) s' dev j h;
    }

evict_first-Indexes : (now : ℤ) (ids : List ℕ) (s : MemoryStore) → Indexes s (evict_first now ids s)
unfolding evict_first
evict_first-Indexes now [] s = Indexes-refl s
evict_first-Indexes now (id ∷ ids) s = remove_logged-Indexes now id s

evict_if_over-Indexes : (now : ℤ) (s : MemoryStore) → Indexes s (evict_if_over now s)
unfolding evict_if_over evict_oldest
evict_if_over-Indexes now s = elim (Bool-cases (ltb s.max (length s.order))) [
  | inl over ↦ rw over (evict_first-Indexes now s.order s)
  | inr fits ↦ rw fits (Indexes-refl s)
]

-- The next id has no message yet.
next-none :
    (s : MemoryStore)
    → HasRoom s.seq
    → IsValid s
    → is_some (Dict.get s.msgs (succ_uint64 s.seq)) ≡ false
next-none s room v =
    ground
      (arith, v.tracked (succ_uint64 s.seq), le_of_mem (succ_uint64 s.seq) s.seq s.order v.assigned)

append_message-Indexes :
    (m : Message) (s : MemoryStore)
    → HasRoom s.seq
    → IsValid s
    → Indexes s (append_message (succ_uint64 s.seq) m s)
unfolding append_message store_message
append_message-Indexes m s room v = record {
  kept = λ id old h. inl (
      ground (
        arith,
        h,
        next-none s room v,
        get-put s.msgs (succ_uint64 s.seq) id (record m { id = succ_uint64 s.seq }),
      ));
  grows = λ device id h. h;
}

add-Indexes :
    (now : ℤ) (m : Message) (s : MemoryStore)
    → HasRoom s.seq
    → IsValid s
    → Indexes s (Memory.add now m s).1
unfolding Memory.add
add-Indexes now m s room v =
    let s' = append_message (succ_uint64 s.seq) m s in
    Indexes-trans s s' (evict_if_over now s') (append_message-Indexes m s room v)
      (evict_if_over-Indexes now s')

delete_scoped-Indexes :
    (now : ℤ) (id : ℕ) (device : String) (s : MemoryStore)
    → Indexes s (delete_scoped now id device s).1
delete_scoped-Indexes now id device s = elim (delete_scoped_outcome now id device s) [
  | inl e ↦ rw e (Indexes-refl s)
  | inr (m, found, own, e) ↦ rw e (remove_logged-Indexes now id s)
]

delete_by_extra_id-Indexes :
    (now : ℤ) (device : String) (extra_id : Text) (s : MemoryStore)
    → Indexes s (delete_by_extra_id now device extra_id s).1
delete_by_extra_id-Indexes now device extra_id s =
    let r = extra_row device extra_id in
    elim (delete_by_extra_id_outcome now device extra_id s) [
      | inl (none_found, e) ↦ rw e (add_deletion-Indexes now r s)
      | inr (id, stored, found, e) ↦
          let s' = remove_logged now id s in
          rw e (
            Indexes-trans s s' (add_deletion now r s').1 (remove_logged-Indexes now id s)
              (add_deletion-Indexes now r s'))
    ]

expire_one-Indexes :
    (clock : ℤ) (id n : ℕ) (s : MemoryStore) → Indexes s (expire_one clock id (n, s)).1
unfolding expire_one
expire_one-Indexes clock id n s = elim (Option-cases (Dict.get s.msgs id)) [
  | inl e ↦ rw (e, expire_one) (record { kept = λ j m h. inl h; grows = λ device j h. h })
  | inr (m, e) ↦ rw (e, expire_one) (remove_logged-Indexes clock id s)
]

expire_loop-Indexes :
    (clock : ℤ) (ids : List ℕ) (acc : ℕ × MemoryStore) → Indexes acc.1 (expire_loop clock ids acc).1
unfolding expire_loop
expire_loop-Indexes clock [] acc = Indexes-refl acc.1
expire_loop-Indexes clock (id ∷ ids) (n, s) =
    let next = expire_one clock id (n, s) in
    Indexes-trans s next.1 (expire_loop clock ids next).1 (expire_one-Indexes clock id n s)
      (expire_loop-Indexes clock ids next)

-- The calls that remove messages one by one: an eviction, a deletion, or the sweep of the deadlines.
abbrev pub removes_singly : Call → Bool
removes_singly (Call.add m) = true
removes_singly (upsert device extra_id m) = false
removes_singly (delete device id) = true
removes_singly (delete_extra device extra_id) = true
removes_singly (delete_all device) = false
removes_singly (expire now) = true
removes_singly (cleanup now) = false

-- A call that removes messages one by one keeps every message as it is or indexes it as deleted under
-- its device, and it loses no entry. This holds for a valid store whose id counter is not exhausted.
pub step-Indexes :
    (clock : ℤ) (c : Call) (s : MemoryStore)
    → removes_singly c ≡ true
    → HasRoom s.seq
    → IsValid s
    → Indexes s (step clock c s)
unfolding step expire_messages
step-Indexes clock (Call.add m) s h room v = add-Indexes clock m s room v
step-Indexes clock (upsert device extra_id m) s h room v = cc
step-Indexes clock (delete device id) s h room v = delete_scoped-Indexes clock id device s
step-Indexes clock (delete_extra device extra_id) s h room v =
    delete_by_extra_id-Indexes clock device extra_id s
step-Indexes clock (delete_all device) s h room v = cc
step-Indexes clock (expire now) s h room v =
    expire_loop-Indexes clock (due_ids s.expires now s.order) (0, s)
step-Indexes clock (cleanup now) s h room v = cc

-- Where the evicted ids go: a message that Add has just stored is still there.
evict_first-keeps :
    (now : ℤ) (id : ℕ) (ids : List ℕ) (s : MemoryStore)
    → mem id (take 1 ids) ≡ false
    → Dict.get (evict_first now ids s).msgs id ≡ Dict.get s.msgs id
unfolding evict_first remove_logged remove_locked
evict_first-keeps now id [] s h = refl
evict_first-keeps now id (x ∷ ids) s h = ground (
  arith,
  h,
  msgs-add_deletion now (single_row (source_device (message_at s x)) x) (remove_locked x s),
  get-del s.msgs x id,
)

first-not-last :
    (id b : ℕ) (ids : List ℕ)
    → All (λ i. i ≤ b) ids
    → b < id
    → 1 < length (ids ++ id ∷ [])
    → mem id (take 1 (ids ++ id ∷ [])) ≡ false
first-not-last id b [] u h k = absurd (omega arith)
first-not-last id b (x ∷ ids) u h k = ground (arith, u.0)

-- In a valid store with room for a message, Add stores the message under the id that it returns: an
-- eviction takes another one.
pub get-add :
    (now : ℤ) (m : Message) (s : MemoryStore)
    → 0 < s.max
    → HasRoom s.seq
    → IsValid s
    → Dict.get (Memory.add now m s).1.msgs (Memory.add now m s).0
      ≡ some (record m { id = (Memory.add now m s).0 })
unfolding Memory.add evict_if_over evict_oldest append_message store_message
get-add now m s some_room room v =
    let id = succ_uint64 s.seq in
    let s' = append_message id m s in
    let stored = get-put s.msgs id id (record m { id = id }) in
    elim (Bool-cases (ltb s.max (length (s.order ++ id ∷ [])))) [
      | inr fits ↦ rw fits (ground (arith, stored))
      | inl over ↦
          let stays =
            evict_first-keeps now id (s.order ++ id ∷ []) s'
              (first-not-last id s.seq s.order v.assigned (omega arith) (ground arith)) in
          rw over (ground (arith, stored, stays))
    ]
