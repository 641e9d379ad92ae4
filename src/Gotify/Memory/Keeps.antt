-- ===== src/Gotify/Memory/Keeps.antt =====
-- Every write of memoryStore keeps its messages valid.
use Prim.Native.Nat.{◌^◌}
use timelynotify_server.Base.{
  ℕ, ◌+◌, ◌<◌, String, true, List, [], ◌∷◌, ℤ, ◌≡◌, refl, ap, arith, ltb, length, Text, Bool-cases,
  inl, inr,
}
use timelynotify_server.Base.Ascending.{mem, length-remove}
use timelynotify_server.Gotify.Model.{Message, extra_row, succ_uint64}
use timelynotify_server.Gotify.Memory.{
  MemoryStore, remove_locked, remove_logged, evict_if_over, evict_first, evict_oldest,
  store_message, append_message, add, upsert_by_extra_id, delete_scoped, delete_by_extra_id,
}
use timelynotify_server.Gotify.Memory.Outcomes.{
  upsert_outcome, delete_scoped_outcome, delete_by_extra_id_outcome,
}
use timelynotify_server.Gotify.Memory.Frame.{log_frame, order-add_deletion, max-add_deletion}
use timelynotify_server.Gotify.Memory.Valid.{
  IsBounded, IsValid, add_deletion-IsBounded, remove_logged-IsBounded, store_message-IsBounded,
  append_message-IsBounded,
}

pub max-remove_logged : (now : ℤ) (id : ℕ) (s : MemoryStore) → (remove_logged now id s).max ≡ s.max
unfolding remove_logged remove_locked
max-remove_logged now id s = simp log_frame

-- The removal of a stored message makes the history shorter.
remove_logged-shrinks :
    (now : ℤ) (id n : ℕ) (s : MemoryStore)
    → mem id s.order ≡ true
    → IsBounded (n + 1) s
    → IsBounded n (remove_logged now id s)
remove_logged-shrinks now id n s h v =
    let w = remove_logged-IsBounded now id (n + 1) s v in
    record {
      ascending = w.ascending;
      assigned = w.assigned;
      tracked = w.tracked;
      ids = w.ids;
      deadlines = w.deadlines;
      sized =
          unfold remove_logged remove_locked in
          (rw order-add_deletion (omega (arith, length-remove id s.order h, v.sized)));
    }

evict_first-IsValid :
    (now : ℤ) (ids : List ℕ) (s : MemoryStore)
    → s.order ≡ ids
    → s.max < length s.order
    → IsBounded (s.max + 1) s
    → IsValid (evict_first now ids s)
unfolding evict_first
evict_first-IsValid now [] s e h v = absurd (omega (arith, ap length e))
evict_first-IsValid now (old ∷ ids) s e h v =
    rw max-remove_logged (remove_logged-shrinks now old s.max s (rw e (ground arith)) v)

evict_if_over-IsValid :
    (now : ℤ) (s : MemoryStore) → IsBounded (s.max + 1) s → IsValid (evict_if_over now s)
unfolding evict_if_over evict_oldest
evict_if_over-IsValid now s v = elim (Bool-cases (ltb s.max (length s.order))) [
  | inl over ↦ rw over (evict_first-IsValid now s.order s refl (ground arith) v)
  | inr fits ↦ rw fits (record {
    ascending = v.ascending;
    assigned = v.assigned;
    tracked = v.tracked;
    ids = v.ids;
    deadlines = v.deadlines;
    sized = ground arith;
  })
]

-- A uint64 counter below its largest value.
abbrev pub HasRoom : ℕ → Type 0
HasRoom n = n + 1 < 2 ^ 64

pub add-IsValid :
    (now : ℤ) (m : Message) (s : MemoryStore) → HasRoom s.seq → IsValid s → IsValid (add now m s).1
unfolding add
add-IsValid now m s h v =
    evict_if_over-IsValid now (append_message (succ_uint64 s.seq) m s)
      (append_message-IsBounded (succ_uint64 s.seq) m s.max s (omega arith) v)

pub upsert_by_extra_id-IsValid :
    (now : ℤ) (device : String) (extra_id : Text) (m : Message) (s : MemoryStore)
    → HasRoom s.seq
    → IsValid s
    → IsValid (upsert_by_extra_id now device extra_id m s).1
unfolding store_message
upsert_by_extra_id-IsValid now device extra_id m s h v =
    elim (upsert_outcome now device extra_id m s) [
      | inl appends ↦ rw appends (add-IsValid now m s h v)
      | inr (id, stored, found, e) ↦ rw e (store_message-IsBounded id m s.max s stored v)
    ]

pub delete_scoped-IsValid :
    (now : ℤ) (id : ℕ) (device : String) (s : MemoryStore)
    → IsValid s
    → IsValid (delete_scoped now id device s).1
delete_scoped-IsValid now id device s v = elim (delete_scoped_outcome now id device s) [
  | inl e ↦ rw e v
  | inr (m, found, own, e) ↦
      rw e (simp max-remove_logged (remove_logged-IsBounded now id s.max s v))
]

pub delete_by_extra_id-IsValid :
    (now : ℤ) (device : String) (extra_id : Text) (s : MemoryStore)
    → IsValid s
    → IsValid (delete_by_extra_id now device extra_id s).1
delete_by_extra_id-IsValid now device extra_id s v =
    let r = extra_row device extra_id in
    elim (delete_by_extra_id_outcome now device extra_id s) [
      | inl (none_found, e) ↦ rw e (simp max-add_deletion (add_deletion-IsBounded now r s.max s v))
      | inr (id, stored, found, e) ↦ rw e (
          simp (max-add_deletion, max-remove_logged)
            (add_deletion-IsBounded now r s.max (remove_logged now id s)
              (remove_logged-IsBounded now id s.max s v)))
    ]
