-- ===== src/Gotify/Memory/Purges/Wiped.antt =====
-- memoryStore.DeleteAllByDevice: what a wipe removes is covered by a purge row.
use timelynotify_server.Base.{
  ℕ, ◌≤◌, ◌<◌, String, true, List, [], ◌∷◌, none, some, ℤ, ◌≡◌, ◌∙◌, arith, nat_eq, Bool-cases,
  Option-cases, inl, inr, nat_key, string_key, if◌then◌else◌, ◌==◌, str_eq_iff, ==_refl, map,
}
use timelynotify_server.Base.Ascending.{mem, mem-append}
use timelynotify_server.Base.Dict
use timelynotify_server.Base.Dict.{Dict, get-del, get-put, value_at, get-empty}
use timelynotify_server.Gotify.Model.{Message, source_device}
use timelynotify_server.Gotify.Memory.{MemoryStore, of_device}
use timelynotify_server.Gotify.Memory.Sweeps.{
  sorted_devices, Wipe, or_zero_id, ceiling_of, wipe_one, wipe_loop, remove_all, apply_wipe,
  wipe_of, delete_all_by_device,
}
use timelynotify_server.Gotify.Memory.Purges.{
  is_purged, is_in, add_purges-covers, msgs-add_purges, is_in-sort, is_in-keys, get-remove_all,
}

ceiling_of-put :
    (c : Dict String ℕ) (device d : String) (n : ℕ)
    → ceiling_of (Dict.put c device n) d ≡ (if device == d then n else ceiling_of c d)
unfolding ceiling_of or_zero_id
ceiling_of-put c device d n = ground (arith, get-put c device d n)

wipe_one-le :
    (device d : String) (id : ℕ) (m : Message) (w : Wipe)
    → ceiling_of w.ceiling d ≤ ceiling_of (wipe_one device id m w).ceiling d
unfolding wipe_one
wipe_one-le device d id m w =
    let dev = source_device m in ground (arith, ceiling_of-put w.ceiling dev d id, str_eq_iff dev d)

wipe_one-mem :
    (device : String) (id j : ℕ) (m : Message) (w : Wipe)
    → mem j w.to_remove ≡ true
    → mem j (wipe_one device id m w).to_remove ≡ true
unfolding wipe_one
wipe_one-mem device id j m w h = ground (arith, h, mem-append j id w.to_remove)

-- The message is noted, with a ceiling that reaches it.
abbrev Noted : ℕ → String → Wipe → Type 0
Noted j d w = (mem j w.to_remove ≡ true) × (j ≤ ceiling_of w.ceiling d)

wipe_one-Noted :
    (device : String) (id : ℕ) (m : Message) (w : Wipe)
    → of_device device m ≡ true
    → Noted id (source_device m) (wipe_one device id m w)
unfolding wipe_one
wipe_one-Noted device id m w own =
    let dev = source_device m in
    (
      ground (arith, own, mem-append id id w.to_remove),
      ground (arith, own, ceiling_of-put w.ceiling dev dev id, ==_refl dev),
    )

wipe_loop-kept :
    (device d : String) (j : ℕ) (l : List (ℕ × Message)) (w : Wipe)
    → Noted j d w
    → Noted j d (wipe_loop device l w)
unfolding wipe_loop
wipe_loop-kept device d j [] w h = h
wipe_loop-kept device d j ((id, m) ∷ l) w h =
    let up = wipe_one-le device d id m w in
    wipe_loop-kept device d j l (wipe_one device id m w)
      (wipe_one-mem device id j m w h.0, omega (arith, h.1, up))

wipe_loop-Noted :
    (device : String) (j : ℕ) (m : Message) (l : List (ℕ × Message)) (w : Wipe)
    → value_at j l ≡ some m
    → of_device device m ≡ true
    → Noted j (source_device m) (wipe_loop device l w)
unfolding wipe_loop value_at
wipe_loop-Noted device j m [] w h own = absurd (ground (arith, h))
wipe_loop-Noted device j m ((id, n) ∷ l) w h own = elim (Bool-cases (nat_eq id j)) [
  | inl here ↦
      let same : n ≡ m = ground (arith, h, here) in
      let at : id ≡ j = ground (arith, here) in
      wipe_loop-kept device (source_device m) j l (wipe_one device id n w)
        (rw (same, at) (wipe_one-Noted device j m w own))
  | inr there ↦ wipe_loop-Noted device j m l (wipe_one device id n w) (ground (arith, h, there)) own
]

is_in-sorted :
    (ceiling : Dict String ℕ) (d : String)
    → 0 < ceiling_of ceiling d
    → is_in d (sorted_devices ceiling) ≡ true
unfolding sorted_devices ceiling_of or_zero_id Dict.get
is_in-sorted ceiling d h = elim (Option-cases (value_at d ceiling.entries)) [
  | inl e ↦ absurd (ground (arith, h, e))
  | inr (n, e) ↦
      is_in-sort d (map (λ e. e.0) ceiling.entries)
      ∙ is_in-keys d ceiling.entries (ground (arith, e))
]

apply_wipe-covers :
    (clock : ℤ) (d : String) (j : ℕ) (ceiling : Dict String ℕ) (ids : List ℕ) (s : MemoryStore)
    → 0 < j
    → mem j ids ≡ true
    → j ≤ ceiling_of ceiling d
    → (Dict.get (apply_wipe clock ceiling ids s).msgs j ≡ none)
      × (is_purged d j (apply_wipe clock ceiling ids s).dels ≡ true)
unfolding apply_wipe
apply_wipe-covers clock d j ceiling [] s p h k = absurd (ground (arith, h))
apply_wipe-covers clock d j ceiling (id ∷ ids) s p h k =
    let ds = sorted_devices ceiling in
    let s' = remove_all (id ∷ ids) s in
    (
      ground (arith, h, msgs-add_purges clock ceiling ds s', get-remove_all (id ∷ ids) s j),
      add_purges-covers clock ceiling ds d j s' (is_in-sorted ceiling d (omega (arith, k))) k,
    )

-- DeleteAllByDevice removes each stored message of the device, and the log then has a purge row of
-- the message's device with a ceiling that reaches its id. The ids of stored messages are positive.
pub delete_all_by_device-covers :
    (clock : ℤ) (device : String) (s : MemoryStore) (j : ℕ) (m : Message)
    → 0 < j
    → Dict.get s.msgs j ≡ some m
    → of_device device m ≡ true
    → (Dict.get (delete_all_by_device clock device s).msgs j ≡ none)
      × (is_purged (source_device m) j (delete_all_by_device clock device s).dels ≡ true)
unfolding delete_all_by_device wipe_of Dict.get
delete_all_by_device-covers clock device s j m p stored own =
    let noted =
      wipe_loop-Noted device j m s.msgs.entries (record { to_remove = []; ceiling = Dict.empty })
        stored own in
    let w = wipe_of device s in
    apply_wipe-covers clock (source_device m) j w.ceiling w.to_remove s p noted.0 noted.1
