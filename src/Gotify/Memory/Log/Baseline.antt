-- ===== src/Gotify/Memory/Log/Baseline.antt =====
-- memoryStore: what DeletionsByDevice tells a client whose cursor is 0.
use timelynotify_server.Base.{
  ℕ, ◌+◌, ◌^◌, ◌≤◌, ◌<◌, String, true, false, List, [], ◌∷◌, some, ℤ, nat_eq, length, ◌≡◌, refl,
  sym, ==_refl, ◌∙◌, ap, arith, ◌==◌, string_key, nat_key, Bool-cases, inl, inr,
}
use timelynotify_server.Base.Ascending.{Ascending, Ascending-lower}
use timelynotify_server.Base.Dict
use timelynotify_server.Gotify.Model.{Message, DeletionRecord, DeletionsPage, source_device}
use timelynotify_server.Gotify.Memory.{
  MemoryStore, message_at, or_zero, of_device, delete_scoped, remove_logged, remove_locked,
}
use timelynotify_server.Gotify.Memory.Run.{Call, run}
use timelynotify_server.Gotify.Memory.Tombstones.{add_deletion-there}
use timelynotify_server.Gotify.Memory.Logged.{IsLogged, cursors}
use timelynotify_server.Gotify.Memory.Logged.Calls.{row_bounds, run-IsLogged, remove_logged-Logs}
use timelynotify_server.Gotify.Memory.Logged.Tombstones.{has_tombstone}
use timelynotify_server.Gotify.Memory.Log.{deletions_by_device, cursor_range, is_event}
use timelynotify_server.Gotify.Memory.Log.Loop.{events}
use timelynotify_server.Gotify.Memory.Log.Range.{rows_of, last_cursor}
use timelynotify_server.Gotify.Memory.Log.Pages.{
  log_page, deletions_by_device_lem, Ascending-select, last_cursor-le,
}

-- No event is on the page, and it does not ask for a new start.
pub record IsSilent (page : DeletionsPage) : Type 0 where
  pub ids : page.ids ≡ []
  pub purges : page.purges ≡ []
  pub extra_ids : page.extra_ids ≡ []
  pub reset : page.reset ≡ false

deletions_by_device-IsSilent :
    (device : String) (s : MemoryStore) → IsSilent (deletions_by_device device 0 s)
unfolding deletions_by_device
deletions_by_device-IsSilent device s =
    elim (Bool-cases (nat_eq (cursor_range device s.dels (0, 0)).1 0)) [
      | inl e ↦
          rw (e, deletions_by_device)
            (record { ids = refl; purges = refl; extra_ids = refl; reset = refl })
      | inr e ↦
          rw (e, deletions_by_device)
            (record { ids = refl; purges = refl; extra_ids = refl; reset = refl })
    ]

last_cursor-none :
    (rows : List DeletionRecord) → nat_eq (length rows) 0 ≡ true → last_cursor 0 rows ≡ 0
last_cursor-none [] h = refl
last_cursor-none (r ∷ rows) h = absurd (ground arith)

-- The page for the cursor 0 hands out the cursor of the device's last row.
cursor-last :
    (device : String) (s : MemoryStore)
    → IsLogged s
    → (deletions_by_device device 0 s).cursor ≡ last_cursor 0 (rows_of device s.dels)
unfolding log_page
cursor-last device s v =
    let rows = rows_of device s.dels in
    elim (Bool-cases (nat_eq (length rows) 0)) [
      | inl e ↦
          rw (deletions_by_device_lem device 0 s v, log_page, e) (sym (last_cursor-none rows e))
      | inr e ↦ rw (deletions_by_device_lem device 0 s v, log_page, e) refl
    ]

-- No event stands behind the device's last row.
events-past :
    (device : String) (c lo : ℕ) (dels : List DeletionRecord)
    → Ascending lo (cursors dels)
    → last_cursor lo (rows_of device dels) ≤ c
    → events device c dels ≡ []
events-past device c lo [] a h = refl
events-past device c lo (r ∷ dels) a h = elim (Bool-cases (r.device_key == device)) [
  | inl own ↦
      let rest : last_cursor r.id (rows_of device dels) ≤ c = rw own at h in
      let le =
        last_cursor-le r.id (rows_of device dels)
          (Ascending-select (λ x. x.device_key == device) r.id dels a.1) in
      let past : is_event device c r ≡ false = ground (arith, own, rest, le) in
      rw past (events-past device c r.id dels a.1 rest)
  | inr foreign ↦
      let rest : last_cursor lo (rows_of device dels) ≤ c = rw foreign at h in
      let other : is_event device c r ≡ false = ground (arith, foreign) in
      rw other (
        events-past device c lo dels (Ascending-lower r.id lo (cursors dels) (omega arith) a.1)
          rest)
]

-- A removal of a stored message leaves its row in the log.
remove_logged-has_tombstone :
    (now : ℤ) (id : ℕ) (s : MemoryStore)
    → IsLogged (remove_logged now id s)
    → has_tombstone (source_device (message_at s id)) id (remove_logged now id s).dels ≡ true
unfolding remove_logged
remove_logged-has_tombstone now id s v =
    let device = source_device (message_at s id) in
    rw⁻¹ (v.indexed device id) (add_deletion-there now device id (remove_locked id s))

delete_scoped-stored :
    (now : ℤ) (id : ℕ) (m : Message) (s : MemoryStore)
    → Dict.get s.msgs id ≡ some m
    → ((delete_scoped now id (source_device m) s).1 ≡ remove_logged now id s)
      × (source_device (message_at s id) ≡ source_device m)
unfolding delete_scoped of_device message_at
delete_scoped-stored now id m s there =
    let own : of_device (source_device m) m ≡ true = ground (arith, ==_refl (source_device m)) in
    (rw (there, delete_scoped, own), ap (λ x. source_device (or_zero x)) there)

missed-Silent :
    (device : String) (t : MemoryStore)
    → IsLogged t
    → IsSilent (deletions_by_device device 0 t)
      × (events device (deletions_by_device device 0 t).cursor t.dels ≡ [])
missed-Silent device t v = (
  deletions_by_device-IsSilent device t,
  events-past device (deletions_by_device device 0 t).cursor 0 t.dels v.ascending
      (omega (arith, cursor-last device t v)),
)

-- A client that takes its first cursor while the device's log is empty gets the cursor 0, and misses
-- what follows: whatever calls run, if a stored message of the device is deleted then, the log has the
-- row of this deletion, but the page for the cursor 0 has no event and no reset, and no event stands
-- behind the cursor that it hands out. The log meets its invariant, and its counter has room for the
-- rows of the calls and of the deletion.
pub deletions_by_device-first_cursor :
    (calls : List (ℤ × Call)) (clock : ℤ) (id : ℕ) (m : Message) (s : MemoryStore)
    → IsLogged s
    → rows_of (source_device m) s.dels ≡ []
    → s.del_seq + row_bounds calls s < 2 ^ 64
    → (run calls s).del_seq + 1 < 2 ^ 64
    → Dict.get (run calls s).msgs id ≡ some m
    → let device = source_device m in
      let first = (deletions_by_device device 0 s).cursor in
      let t = (delete_scoped clock id device (run calls s)).1 in
      let missed = deletions_by_device device first t in
      (first ≡ 0)
      × (has_tombstone device id t.dels ≡ true)
      × IsSilent missed
      × (events device missed.cursor t.dels ≡ [])
deletions_by_device-first_cursor calls clock id m s v h room more there =
    let device = source_device m in
    let s' = run calls s in
    let (gone, own) = delete_scoped-stored clock id m s' there in
    let logged = (remove_logged-Logs clock id s' more (run-IsLogged calls s room v)).0 in
    let row : has_tombstone device id (remove_logged clock id s').dels ≡ true =
      rw own at (remove_logged-has_tombstone clock id s' logged) in
    let start : (deletions_by_device device 0 s).cursor ≡ 0 =
      cursor-last device s v ∙ ap (last_cursor 0) h in
    let (silent, past) = missed-Silent device (remove_logged clock id s') logged in
    rw (start, gone) (refl, row, silent, past)
