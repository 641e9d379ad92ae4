-- ===== src/Gotify/Memory/Logged/Prune.antt =====
-- memoryStore.CleanupDeletions: dropping rows keeps the invariant of the deletion log.
use mathlib.Core.List.{append-nil}
use timelynotify_server.Base.{
  ℕ, ◌≤◌, String, false, ◌&&◌, List, [], ◌∷◌, ◌++◌, none, ℤ, ◌≡◌, arith, All, nat_eq, if◌then◌else◌,
  ◌==◌, nat_key, string_key, str_eq_iff, Option-cases, Bool-cases, inl, inr, append_cons,
}
use timelynotify_server.Base.Ascending.{Ascending, Ascending-lower}
use timelynotify_server.Base.Dict
use timelynotify_server.Base.Dict.{Dict, get-put, get-del, get-empty}
use timelynotify_server.Gotify.Model.{DeletionRecord}
use timelynotify_server.Gotify.Memory.{MemoryStore, is_single, cursor_of}
use timelynotify_server.Gotify.Memory.Logged.{
  cursors, is_single_of, find_single, Distinct, IsLogged,
}
use timelynotify_server.Gotify.Memory.Sweeps.{
  Retained, is_old, clear_cursor, retain_one, retain_loop, collect,
}

find_single-middle :
    (device : String) (id : ℕ) (xs : List DeletionRecord) (r : DeletionRecord)
    (ys : List DeletionRecord)
    → find_single device id (xs ++ r ∷ ys) ≡ none
    → (find_single device id (xs ++ ys) ≡ none) × (is_single_of device id r ≡ false)
unfolding find_single
find_single-middle device id [] r ys h = ground arith
find_single-middle device id (x ∷ xs) r ys h = ground (arith, find_single-middle device id xs r ys)

-- Without one row, the log finds what it found, save for that row's message.
find_single-without :
    (device : String) (id : ℕ) (xs : List DeletionRecord) (r : DeletionRecord)
    (ys : List DeletionRecord)
    → Distinct (xs ++ r ∷ ys)
    → find_single device id (xs ++ ys)
      ≡ (if is_single_of device id r then none else find_single device id (xs ++ r ∷ ys))
unfolding find_single
find_single-without device id [] r ys d = ground (arith, d.0, str_eq_iff r.device_key device)
find_single-without device id (x ∷ xs) r ys d = ground (
  arith,
  d.0,
  find_single-without device id xs r ys d.1,
  find_single-middle x.device_key x.message_id xs r ys,
  str_eq_iff x.device_key device,
  str_eq_iff r.device_key device,
  str_eq_iff r.device_key x.device_key,
)

Distinct-without :
    (xs : List DeletionRecord) (r : DeletionRecord) (ys : List DeletionRecord)
    → Distinct (xs ++ r ∷ ys)
    → Distinct (xs ++ ys)
Distinct-without [] r ys d = d.1
Distinct-without (x ∷ xs) r ys d = (
  λ h. (find_single-middle x.device_key x.message_id xs r ys (d.0 h)).0,
  Distinct-without xs r ys d.1,
)

Ascending-without :
    (lo : ℕ) (xs : List DeletionRecord) (r : DeletionRecord) (ys : List DeletionRecord)
    → Ascending lo (cursors (xs ++ r ∷ ys))
    → Ascending lo (cursors (xs ++ ys))
Ascending-without lo [] r ys a = Ascending-lower r.id lo (cursors ys) (omega arith) a.1
Ascending-without lo (x ∷ xs) r ys a = (a.0, Ascending-without x.id xs r ys a.1)

All-without :
    (n : ℕ) (xs : List DeletionRecord) (r : DeletionRecord) (ys : List DeletionRecord)
    → All (λ c. c ≤ n) (cursors (xs ++ r ∷ ys))
    → All (λ c. c ≤ n) (cursors (xs ++ ys))
All-without n [] r ys u = u.1
All-without n (x ∷ xs) r ys u = (u.0, All-without n xs r ys u.1)

cursor_of-clear :
    (d : Dict String (Dict ℕ ℕ)) (device dev : String) (id i : ℕ)
    → cursor_of (clear_cursor d device id) dev i
      ≡ (if (device == dev) && nat_eq id i then none else cursor_of d dev i)
unfolding cursor_of clear_cursor
cursor_of-clear d device dev id i = elim (Option-cases (Dict.get d device)) [
  | inl e ↦ ground (arith, e, str_eq_iff device dev, get-empty {V = ℕ} i)
  | inr (set, e) ↦
      ground
        (arith, e, get-put d device dev (Dict.del set id), get-del set id i, str_eq_iff device dev)
]

-- The invariant of a log with the given rows and index.
abbrev IsIndex : ℕ → List DeletionRecord → Dict String (Dict ℕ ℕ) → Type 0
IsIndex n rows index =
    Ascending 0 (cursors rows)
    × All (λ c. c ≤ n) (cursors rows)
    × ((device : String) (id : ℕ) → cursor_of index device id ≡ find_single device id rows)
    × Distinct rows

-- The index forgets a dropped row, if it knew it.
forget : DeletionRecord → Dict String (Dict ℕ ℕ) → Dict String (Dict ℕ ℕ)
forget r index = if is_single r.kind then clear_cursor index r.device_key r.message_id else index

forget-IsIndex :
    (n : ℕ) (xs : List DeletionRecord) (r : DeletionRecord) (ys : List DeletionRecord)
    (index : Dict String (Dict ℕ ℕ))
    → IsIndex n (xs ++ r ∷ ys) index
    → IsIndex n (xs ++ ys) (forget r index)
unfolding forget
forget-IsIndex n xs r ys index v = (
  Ascending-without 0 xs r ys v.0,
  All-without n xs r ys v.1,
  λ device id. ground (
    arith,
    v.2 device id,
    find_single-without device id xs r ys v.3,
    cursor_of-clear index r.device_key device r.message_id id,
  ),
  Distinct-without xs r ys v.3,
)

retain_one-IsIndex :
    (cutoff : ℤ) (n : ℕ) (r : DeletionRecord) (rows : List DeletionRecord) (a : Retained)
    → IsIndex n (a.fresh ++ r ∷ rows) a.del_msg
    → IsIndex n ((retain_one cutoff r a).fresh ++ rows) (retain_one cutoff r a).del_msg
unfolding retain_one forget
retain_one-IsIndex cutoff n r rows a v = elim (Bool-cases (is_old cutoff r)) [
  | inl old ↦ rw old (forget-IsIndex n a.fresh r rows a.del_msg v)
  | inr fresh ↦ rw (fresh, append_cons a.fresh r rows) v
]

retain_loop-IsIndex :
    (cutoff : ℤ) (n : ℕ) (rows : List DeletionRecord) (a : Retained)
    → IsIndex n (a.fresh ++ rows) a.del_msg
    → IsIndex n (retain_loop cutoff rows a).fresh (retain_loop cutoff rows a).del_msg
unfolding retain_loop
retain_loop-IsIndex cutoff n [] a v = rw (append-nil a.fresh) at v
retain_loop-IsIndex cutoff n (r ∷ rows) a v =
    retain_loop-IsIndex cutoff n rows (retain_one cutoff r a)
      (retain_one-IsIndex cutoff n r rows a v)

pub collect-IsLogged :
    (cutoff : ℤ) (s : MemoryStore)
    → IsLogged s
    → IsLogged (record s { dels = (collect cutoff s).fresh; del_msg = (collect cutoff s).del_msg })
unfolding collect
collect-IsLogged cutoff s v =
    let start : Retained = record {
      affected = Dict.empty;
      fresh = [];
      removed = 0;
      del_msg = s.del_msg;
    } in
    let kept =
      retain_loop-IsIndex cutoff s.del_seq s.dels start
        (v.ascending, v.issued, v.indexed, v.distinct) in
    record { ascending = kept.0; issued = kept.1; indexed = kept.2; distinct = kept.3 }
