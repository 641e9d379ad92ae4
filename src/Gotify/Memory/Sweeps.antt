-- ===== src/Gotify/Memory/Sweeps.antt =====
-- internal/gotifycompat/store.go, the bulk operations of memoryStore: the ttl sweep, the retention
-- sweep of the deletion log, and the wipe of a device's history. `clock` is time.Now().Unix(), and
-- `now` the time that the caller passes.
use Prim.Native.String.{compare}
use text.Mathlib.Text.{is_lt}
use timelynotify_server.Base.{
  ℕ, ◌+◌, String, Bool, false, List, [], ◌∷◌, ◌++◌, Option, none, some, ℤ, pos, ◌-ℤ◌, leb_ℤ, ltb_ℤ,
  ltb, nat_eq, if◌then◌else◌, nat_key, string_key, map,
}
use timelynotify_server.Base.Dict
use timelynotify_server.Base.Dict.{Dict}
use timelynotify_server.Gotify.Model.{
  Message, source_device, DeletionRecord, reset_row, purge_row, retention,
}
use timelynotify_server.Gotify.Memory.{
  MemoryStore, is_single, add_deletion, remove_locked, remove_logged, of_device,
}

-- t, ok := s.expires[id]; ok && t <= deadline
unfoldable pub is_due : Dict ℕ ℤ → ℤ → ℕ → Bool
is_due expires now id = elim (Dict.get expires id) [ none ↦ false | some t ↦ leb_ℤ t now ]

unfoldable pub due_ids : Dict ℕ ℤ → ℤ → List ℕ → List ℕ
unfolding is_due
due_ids expires now [] = []
due_ids expires now (id ∷ ids) =
    let rest = due_ids expires now ids in if is_due expires now id then id ∷ rest else rest

unfoldable pub expire_one : ℤ → ℕ → ℕ × MemoryStore → ℕ × MemoryStore
expire_one clock id (removed, s) = elim (Dict.get s.msgs id) [
  | none ↦ (removed, record s { expires = Dict.del s.expires id })
  | some _ ↦ (removed + 1, remove_logged clock id s)
]

unfoldable pub expire_loop : ℤ → List ℕ → ℕ × MemoryStore → ℕ × MemoryStore
expire_loop clock [] acc = acc
expire_loop clock (id ∷ ids) acc = expire_loop clock ids (expire_one clock id acc)

unfoldable pub expire_messages : ℤ → ℤ → MemoryStore → ℕ × MemoryStore
unfolding due_ids expire_loop expire_one
expire_messages clock now s = expire_loop clock (due_ids s.expires now s.order) (0, s)

-- sort.Strings, by insertion.
unfoldable pub insert_device : String → List String → List String
insert_device d [] = d ∷ []
insert_device d (e ∷ l) =
    let rest = insert_device d l in if is_lt (compare e d) then e ∷ rest else d ∷ e ∷ l

unfoldable pub sort_devices : List String → List String
unfolding insert_device
sort_devices [] = []
sort_devices (d ∷ l) = insert_device d (sort_devices l)

-- The keys of a map, sorted.
unfoldable pub sorted_devices {ℓ} : {V : Type ℓ} → Dict String V → List String
unfolding sort_devices
sorted_devices d = sort_devices (map (λ e. e.0) d.entries)

-- delete(s.delMsg[device], id)
unfoldable pub clear_cursor : Dict String (Dict ℕ ℕ) → String → ℕ → Dict String (Dict ℕ ℕ)
clear_cursor d device id = elim (Dict.get d device) [
  | none ↦ d
  | some set ↦ Dict.put d device (Dict.del set id)
]

abbrev pub is_old : ℤ → DeletionRecord → Bool
is_old cutoff r = ltb_ℤ r.created_at cutoff

-- What the retention loop collects.
pub record Retained : Type 0 where
  pub affected : Dict String (Unit {0})
  pub fresh : List DeletionRecord
  pub removed : ℕ
  pub del_msg : Dict String (Dict ℕ ℕ)

unfoldable pub retain_one : ℤ → DeletionRecord → Retained → Retained
retain_one cutoff r a =
    if is_old cutoff r
    then record a {
      affected = Dict.put a.affected r.device_key tt;
      removed = a.removed + 1;
      del_msg =
          if is_single r.kind then clear_cursor a.del_msg r.device_key r.message_id else a.del_msg;
    }
    else record a { fresh = a.fresh ++ r ∷ [] }

unfoldable pub retain_loop : ℤ → List DeletionRecord → Retained → Retained
unfolding retain_one clear_cursor
retain_loop cutoff [] a = a
retain_loop cutoff (r ∷ rows) a = retain_loop cutoff rows (retain_one cutoff r a)

unfoldable pub add_resets : ℤ → ℤ → List String → MemoryStore → MemoryStore
add_resets clock now [] s = s
add_resets clock now (d ∷ l) s = add_resets clock now l (add_deletion clock (reset_row d now) s).1

-- The rows that are older than the cutoff, and what is left without them.
unfoldable pub collect : ℤ → MemoryStore → Retained
unfolding retain_loop
collect cutoff s =
    retain_loop cutoff s.dels
      (record { affected = Dict.empty; fresh = []; removed = 0; del_msg = s.del_msg })

-- The old rows go, and each device that lost one gets its reset sentinel.
unfoldable pub prune : ℤ → ℤ → Retained → MemoryStore → ℕ × MemoryStore
unfolding add_resets sorted_devices
prune clock now a s = if nat_eq a.removed 0 then (0, s) else (
  a.removed,
  add_resets clock now (sorted_devices a.affected)
      (record s { dels = a.fresh; del_msg = a.del_msg }),
)

unfoldable pub cleanup_deletions : ℤ → ℤ → MemoryStore → ℕ × MemoryStore
unfolding collect prune ◌-ℤ◌
cleanup_deletions clock now s = prune clock now (collect (now -ℤ pos retention) s) s

-- The ids to remove, and the largest one for each device.
pub record Wipe : Type 0 where
  pub to_remove : List ℕ
  pub ceiling : Dict String ℕ

unfoldable pub or_zero_id : Option ℕ → ℕ
or_zero_id none = 0
or_zero_id (some n) = n

-- ceiling[device]
unfoldable pub ceiling_of : Dict String ℕ → String → ℕ
unfolding or_zero_id
ceiling_of d device = or_zero_id (Dict.get d device)

unfoldable pub wipe_one : String → ℕ → Message → Wipe → Wipe
wipe_one device id m w =
    let dev = source_device m in
    if of_device device m
    then record w {
      to_remove = w.to_remove ++ id ∷ [];
      ceiling = if ltb (ceiling_of w.ceiling dev) id then Dict.put w.ceiling dev id else w.ceiling;
    }
    else w

unfoldable pub wipe_loop : String → List (ℕ × Message) → Wipe → Wipe
unfolding wipe_one ceiling_of
wipe_loop device [] w = w
wipe_loop device ((id, m) ∷ l) w = wipe_loop device l (wipe_one device id m w)

unfoldable pub remove_all : List ℕ → MemoryStore → MemoryStore
unfolding remove_locked
remove_all [] s = s
remove_all (id ∷ ids) s = remove_all ids (remove_locked id s)

unfoldable pub add_purges : ℤ → Dict String ℕ → List String → MemoryStore → MemoryStore
unfolding ceiling_of
add_purges clock ceiling [] s = s
add_purges clock ceiling (d ∷ l) s =
    add_purges clock ceiling l (add_deletion clock (purge_row d (ceiling_of ceiling d)) s).1

-- The messages go, and each device that lost one gets its purge row.
unfoldable pub apply_wipe : ℤ → Dict String ℕ → List ℕ → MemoryStore → MemoryStore
unfolding remove_all add_purges sorted_devices
apply_wipe clock ceiling [] s = s
apply_wipe clock ceiling (id ∷ ids) s =
    add_purges clock ceiling (sorted_devices ceiling) (remove_all (id ∷ ids) s)

unfoldable pub wipe_of : String → MemoryStore → Wipe
unfolding wipe_loop
wipe_of device s = wipe_loop device s.msgs.entries (record { to_remove = []; ceiling = Dict.empty })

unfoldable pub delete_all_by_device : ℤ → String → MemoryStore → MemoryStore
unfolding wipe_of apply_wipe
delete_all_by_device clock device s =
    let w = wipe_of device s in apply_wipe clock w.ceiling w.to_remove s
