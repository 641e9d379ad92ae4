-- ===== src/Gotify/Memory/Shrinks.antt =====
-- What the removals and the sweeps of memoryStore keep: every bound on the history, the counter of
-- ids and the capacity.
use mathlib.Core.Path.{subst}
use timelynotify_server.Base.{
  ℕ, String, List, [], ◌∷◌, ℤ, pos, ◌-ℤ◌, ◌≡◌, refl, sym, arith, Option-cases, Bool-cases, inl, inr,
  nat_key, nat_eq,
}
use timelynotify_server.Base.Dict
use timelynotify_server.Base.Dict.{Dict, get-del}
use timelynotify_server.Gotify.Model.{
  DeletionRecord, single_row, source_device, reset_row, purge_row, retention,
}
use timelynotify_server.Gotify.Memory.{
  MemoryStore, message_at, add_deletion, remove_locked, remove_logged,
}
use timelynotify_server.Gotify.Memory.Sweeps.{
  expire_one, expire_loop, expire_messages, add_resets, Retained, prune, cleanup_deletions,
  remove_all, add_purges, apply_wipe, sorted_devices, wipe_of, collect, delete_all_by_device,
  ceiling_of, due_ids,
}
use timelynotify_server.Gotify.Memory.Frame.{max-add_deletion, seq-add_deletion}
use timelynotify_server.Gotify.Memory.Valid.{
  IsBounded, IsValid, add_deletion-IsBounded, remove_locked-IsBounded,
}

-- What no removal and no log entry changes: the counter of ids and the capacity.
pub record Same (s t : MemoryStore) : Type 0 where
  pub seq : t.seq ≡ s.seq
  pub max : t.max ≡ s.max

-- A bulk operation that keeps every bound, the counter and the capacity.
pub record Shrinks (s t : MemoryStore) : Type 0 where
  pub same : Same s t
  pub bounded : (n : ℕ) → IsBounded n s → IsBounded n t

pub Shrinks-refl : (s : MemoryStore) → Shrinks s s
Shrinks-refl s = record { same = record { seq = refl; max = refl }; bounded = λ n v. v }

pub Shrinks-trans : (s t u : MemoryStore) → Shrinks s t → Shrinks t u → Shrinks s u
Shrinks-trans s t u f g = record {
  same = record { seq = cc (f.same.seq, g.same.seq); max = cc (f.same.max, g.same.max) };
  bounded = λ n v. g.bounded n (f.bounded n v);
}

pub Shrinks-IsValid : (s t : MemoryStore) → Shrinks s t → IsValid s → IsValid t
Shrinks-IsValid s t f v = subst (λ n. IsBounded n t) (sym f.same.max) (f.bounded s.max v)

pub add_deletion-Shrinks :
    (now : ℤ) (r : DeletionRecord) (s : MemoryStore) → Shrinks s (add_deletion now r s).1
add_deletion-Shrinks now r s = record {
  same = record { seq = seq-add_deletion now r s; max = max-add_deletion now r s };
  bounded = λ n v. add_deletion-IsBounded now r n s v;
}

pub remove_locked-Shrinks : (id : ℕ) (s : MemoryStore) → Shrinks s (remove_locked id s)
remove_locked-Shrinks id s = record {
  same = unfold remove_locked in (record { seq = refl; max = refl });
  bounded = λ n v. remove_locked-IsBounded id n s v;
}

pub remove_logged-Shrinks :
    (now : ℤ) (id : ℕ) (s : MemoryStore) → Shrinks s (remove_logged now id s)
unfolding remove_logged
remove_logged-Shrinks now id s =
    Shrinks-trans s (remove_locked id s) (remove_logged now id s) (remove_locked-Shrinks id s) (
      add_deletion-Shrinks now (single_row (source_device (message_at s id)) id)
        (remove_locked id s))

-- A deadline with no message goes away alone.
pub drop_deadline-Shrinks :
    (id : ℕ) (s : MemoryStore) → Shrinks s (record s { expires = Dict.del s.expires id })
drop_deadline-Shrinks id s = record {
  same = record { seq = refl; max = refl };
  bounded = λ n v. record {
    ascending = v.ascending;
    assigned = v.assigned;
    tracked = v.tracked;
    ids = v.ids;
    deadlines = λ j h. ground (arith, get-del s.expires id j, v.deadlines j h);
    sized = v.sized;
  };
}

pub expire_one-Shrinks :
    (clock : ℤ) (id removed : ℕ) (s : MemoryStore) → Shrinks s (expire_one clock id (removed, s)).1
unfolding expire_one
expire_one-Shrinks clock id removed s = elim (Option-cases (Dict.get s.msgs id)) [
  | inl e ↦ rw (e, expire_one) (drop_deadline-Shrinks id s)
  | inr (m, e) ↦ rw (e, expire_one) (remove_logged-Shrinks clock id s)
]

pub expire_loop-Shrinks :
    (clock : ℤ) (ids : List ℕ) (removed : ℕ) (s : MemoryStore)
    → Shrinks s (expire_loop clock ids (removed, s)).1
unfolding expire_loop
expire_loop-Shrinks clock [] removed s = Shrinks-refl s
expire_loop-Shrinks clock (id ∷ ids) removed s =
    let (removed', s') = expire_one clock id (removed, s) in
    Shrinks-trans s s' (expire_loop clock ids (removed', s')).1
      (expire_one-Shrinks clock id removed s) (expire_loop-Shrinks clock ids removed' s')

pub add_resets-Shrinks :
    (clock now : ℤ) (devices : List String) (s : MemoryStore)
    → Shrinks s (add_resets clock now devices s)
unfolding add_resets
add_resets-Shrinks clock now [] s = Shrinks-refl s
add_resets-Shrinks clock now (d ∷ devices) s =
    let s' = (add_deletion clock (reset_row d now) s).1 in
    Shrinks-trans s s' (add_resets clock now devices s')
      (add_deletion-Shrinks clock (reset_row d now) s) (add_resets-Shrinks clock now devices s')

pub add_purges-Shrinks :
    (clock : ℤ) (ceiling : Dict String ℕ) (devices : List String) (s : MemoryStore)
    → Shrinks s (add_purges clock ceiling devices s)
unfolding add_purges
add_purges-Shrinks clock ceiling [] s = Shrinks-refl s
add_purges-Shrinks clock ceiling (d ∷ devices) s =
    let r = purge_row d (ceiling_of ceiling d) in
    let s' = (add_deletion clock r s).1 in
    Shrinks-trans s s' (add_purges clock ceiling devices s') (add_deletion-Shrinks clock r s)
      (add_purges-Shrinks clock ceiling devices s')

pub remove_all-Shrinks : (ids : List ℕ) (s : MemoryStore) → Shrinks s (remove_all ids s)
unfolding remove_all
remove_all-Shrinks [] s = Shrinks-refl s
remove_all-Shrinks (id ∷ ids) s =
    Shrinks-trans s (remove_locked id s) (remove_all ids (remove_locked id s))
      (remove_locked-Shrinks id s) (remove_all-Shrinks ids (remove_locked id s))

-- The log is no part of the messages.
pub relog-Shrinks :
    (s : MemoryStore) (rows : List DeletionRecord) (index : Dict String (Dict ℕ ℕ))
    → Shrinks s (record s { dels = rows; del_msg = index })
relog-Shrinks s rows index = record {
  same = record { seq = refl; max = refl };
  bounded = λ n v. record {
    ascending = v.ascending;
    assigned = v.assigned;
    tracked = v.tracked;
    ids = v.ids;
    deadlines = v.deadlines;
    sized = v.sized;
  };
}

pub prune-Shrinks :
    (clock now : ℤ) (a : Retained) (s : MemoryStore) → Shrinks s (prune clock now a s).1
unfolding prune
prune-Shrinks clock now a s = elim (Bool-cases (nat_eq a.removed 0)) [
  | inl e ↦ rw e (Shrinks-refl s)
  | inr e ↦
      let s' = record s { dels = a.fresh; del_msg = a.del_msg } in
      let devices = sorted_devices a.affected in
      rw e (
        Shrinks-trans s s' (add_resets clock now devices s') (relog-Shrinks s a.fresh a.del_msg)
          (add_resets-Shrinks clock now devices s'))
]

pub apply_wipe-Shrinks :
    (clock : ℤ) (ceiling : Dict String ℕ) (ids : List ℕ) (s : MemoryStore)
    → Shrinks s (apply_wipe clock ceiling ids s)
unfolding apply_wipe
apply_wipe-Shrinks clock ceiling [] s = Shrinks-refl s
apply_wipe-Shrinks clock ceiling (id ∷ ids) s =
    let s' = remove_all (id ∷ ids) s in
    let devices = sorted_devices ceiling in
    Shrinks-trans s s' (add_purges clock ceiling devices s') (remove_all-Shrinks (id ∷ ids) s)
      (add_purges-Shrinks clock ceiling devices s')

pub delete_all_by_device-Shrinks :
    (clock : ℤ) (device : String) (s : MemoryStore)
    → Shrinks s (delete_all_by_device clock device s)
unfolding delete_all_by_device
delete_all_by_device-Shrinks clock device s =
    let w = wipe_of device s in apply_wipe-Shrinks clock w.ceiling w.to_remove s

pub expire_messages-Shrinks :
    (clock now : ℤ) (s : MemoryStore) → Shrinks s (expire_messages clock now s).1
unfolding expire_messages
expire_messages-Shrinks clock now s = expire_loop-Shrinks clock (due_ids s.expires now s.order) 0 s

pub cleanup_deletions-Shrinks :
    (clock now : ℤ) (s : MemoryStore) → Shrinks s (cleanup_deletions clock now s).1
unfolding cleanup_deletions
cleanup_deletions-Shrinks clock now s = prune-Shrinks clock now (collect (now -ℤ pos retention) s) s
