-- ===== src/Gotify/Memory/Purges.antt =====
-- memoryStore.DeleteAllByDevice: its purge rows, and the messages that it removes.
pub mod Wiped
use Prim.Native.String.{compare}
use text.Mathlib.Text.{is_lt}
use timelynotify_server.Base.{
  ℕ, ◌+◌, ◌≤◌, ◌<◌, String, Bool, true, false, ◌&&◌, ◌||◌, List, [], ◌∷◌, ◌++◌, none, some, ℤ, ◌≡◌,
  refl, ◌∙◌, arith, nat_eq, leb, ltb, Bool-cases, Option-cases, inl, inr, nat_key, string_key,
  if◌then◌else◌, is_some, ◌==◌, str_eq_iff, ==_refl, map,
}
use timelynotify_server.Base.Ascending.{mem, mem-append}
use timelynotify_server.Base.Dict
use timelynotify_server.Base.Dict.{Dict, get-del, get-put, value_at}
use timelynotify_server.Gotify.Model.{
  Message, DeletionKind, purge, DeletionRecord, purge_row, source_device, succ_uint64,
}
use timelynotify_server.Gotify.Memory.{
  MemoryStore, add_deletion, append_row, stamped, remove_locked, of_device,
}
use timelynotify_server.Gotify.Memory.Frame.{msgs-add_deletion}
use timelynotify_server.Gotify.Memory.Logged.{add_deletion_outcome}
use timelynotify_server.Gotify.Memory.Sweeps.{
  insert_device, sort_devices, sorted_devices, Wipe, or_zero_id, ceiling_of, wipe_one, wipe_loop,
  remove_all, add_purges, apply_wipe, wipe_of, delete_all_by_device,
}

abbrev pub is_purge : DeletionKind → Bool
is_purge purge = true
is_purge _ = false

abbrev pub covers : String → ℕ → DeletionRecord → Bool
covers device id r = is_purge r.kind && ((r.device_key == device) && leb id r.ceiling)

-- A purge row tells the clients of the device to drop the id.
unfoldable pub is_purged : String → ℕ → List DeletionRecord → Bool
is_purged device id [] = false
is_purged device id (r ∷ rows) = covers device id r || is_purged device id rows

is_purged-append :
    (device : String) (id : ℕ) (rows : List DeletionRecord) (r : DeletionRecord)
    → is_purged device id (rows ++ r ∷ []) ≡ (is_purged device id rows || covers device id r)
unfolding is_purged
is_purged-append device id [] r = ground arith
is_purged-append device id (x ∷ rows) r = ground (arith, is_purged-append device id rows r)

is_purged-add :
    (clock : ℤ) (dev device : String) (c id : ℕ) (s : MemoryStore)
    → is_purged device id (add_deletion clock (purge_row dev c) s).1.dels
      ≡ (is_purged device id s.dels || ((dev == device) && leb id c))
unfolding append_row stamped
is_purged-add clock dev device c id s = elim (add_deletion_outcome clock (purge_row dev c) s) [
  | inl (n, e, old, same) ↦ cc
  | inr (new, appended) ↦ rw appended (
      ground (
        arith,
        is_purged-append device id s.dels
            (record (stamped clock (purge_row dev c)) { id = succ_uint64 s.del_seq }),
      ))
]

abbrev pub is_in : String → List String → Bool
is_in d [] = false
is_in d (x ∷ l) = (x == d) || is_in d l

add_purges-kept :
    (clock : ℤ) (ceiling : Dict String ℕ) (ds : List String) (device : String) (id : ℕ)
    (s : MemoryStore)
    → is_purged device id s.dels ≡ true
    → is_purged device id (add_purges clock ceiling ds s).dels ≡ true
unfolding add_purges
add_purges-kept clock ceiling [] device id s h = h
add_purges-kept clock ceiling (d ∷ ds) device id s h =
    add_purges-kept clock ceiling ds device id
      (add_deletion clock (purge_row d (ceiling_of ceiling d)) s).1
      (ground (arith, h, is_purged-add clock d device (ceiling_of ceiling d) id s))

pub add_purges-covers :
    (clock : ℤ) (ceiling : Dict String ℕ) (ds : List String) (device : String) (id : ℕ)
    (s : MemoryStore)
    → is_in device ds ≡ true
    → id ≤ ceiling_of ceiling device
    → is_purged device id (add_purges clock ceiling ds s).dels ≡ true
unfolding add_purges
add_purges-covers clock ceiling [] device id s h k = cc
add_purges-covers clock ceiling (d ∷ ds) device id s h k =
    let s' = (add_deletion clock (purge_row d (ceiling_of ceiling d)) s).1 in
    elim (Bool-cases (d == device)) [
      | inl own ↦ add_purges-kept clock ceiling ds device id s' (
          ground (
            arith,
            own,
            k,
            str_eq_iff d device,
            is_purged-add clock d device (ceiling_of ceiling d) id s,
          ))
      | inr other ↦ add_purges-covers clock ceiling ds device id s' (ground (arith, h, other)) k
    ]

pub msgs-add_purges :
    (clock : ℤ) (ceiling : Dict String ℕ) (ds : List String) (s : MemoryStore)
    → (add_purges clock ceiling ds s).msgs ≡ s.msgs
unfolding add_purges
msgs-add_purges clock ceiling [] s = refl
msgs-add_purges clock ceiling (d ∷ ds) s =
    let r = purge_row d (ceiling_of ceiling d) in
    msgs-add_purges clock ceiling ds (add_deletion clock r s).1 ∙ msgs-add_deletion clock r s

is_in-insert :
    (d x : String) (l : List String) → is_in d (insert_device x l) ≡ ((x == d) || is_in d l)
unfolding insert_device
is_in-insert d x [] = refl
is_in-insert d x (e ∷ l) = elim (Bool-cases (is_lt (compare e x))) [
  | inl below ↦ ground (arith, below, is_in-insert d x l)
  | inr above ↦ ground (arith, above)
]

pub is_in-sort : (d : String) (l : List String) → is_in d (sort_devices l) ≡ is_in d l
unfolding sort_devices
is_in-sort d [] = refl
is_in-sort d (x ∷ l) = ground (arith, is_in-insert d x (sort_devices l), is_in-sort d l)

pub is_in-keys :
    {V : Type 0} (d : String) (l : List (String × V))
    → is_some (value_at d l) ≡ true
    → is_in d (map (λ e. e.0) l) ≡ true
unfolding value_at
is_in-keys d [] h = cc
is_in-keys d ((x, n) ∷ l) h = ground (arith, h, is_in-keys d l)

pub get-remove_all :
    (ids : List ℕ) (s : MemoryStore) (j : ℕ)
    → Dict.get (remove_all ids s).msgs j ≡ (if mem j ids then none else Dict.get s.msgs j)
unfolding remove_all remove_locked
get-remove_all [] s j = refl
get-remove_all (id ∷ ids) s j =
    ground (arith, get-remove_all ids (remove_locked id s) j, get-del s.msgs id j)
