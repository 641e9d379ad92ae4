-- ===== src/Gotify/Memory/Logged/Resets.antt =====
-- memoryStore: CleanupDeletions, and what a client that is behind the dropped rows is told.
use timelynotify_server.Base.{
  ℕ, ◌+◌, ◌^◌, ◌≤◌, ◌<◌, String, true, false, List, [], ◌∷◌, ◌++◌, ℤ, pos, ◌-ℤ◌, ◌≡◌, refl, ◌∙◌,
  arith, length, All, nat_eq, ltb, Bool-cases, inl, inr, string_key, is_some, ◌==◌, map,
}
use timelynotify_server.Base.Dict
use timelynotify_server.Base.Dict.{Dict, value_at}
use timelynotify_server.Gotify.Model.{DeletionRecord, retention}
use timelynotify_server.Gotify.Memory.{MemoryStore}
use timelynotify_server.Gotify.Memory.Log.{deletions_by_device}
use timelynotify_server.Gotify.Memory.Log.Range.{rows_of, first_cursor}
use timelynotify_server.Gotify.Memory.Log.Pages.{log_page, deletions_by_device_lem}
use timelynotify_server.Gotify.Memory.Purges.{is_in, is_in-sort, is_in-keys}
use timelynotify_server.Gotify.Memory.Sweeps.{
  is_old, Retained, collect, prune, sorted_devices, cleanup_deletions,
}
use timelynotify_server.Gotify.Memory.Logged.{cursors, IsLogged}
use timelynotify_server.Gotify.Memory.Logged.Calls.{cleanup_deletions-Logs}
use timelynotify_server.Gotify.Memory.Logged.Gap.{
  Aged, fresh-retain_loop, fresh-above, add_resets-Ahead, add_resets-has_row, retain_loop-Counted,
  has_row, Counted,
}

first-above :
    (device : String) (since : ℕ) (rows : List DeletionRecord)
    → All (λ c. since < c) (cursors rows)
    → has_row device rows ≡ true
    → (nat_eq (length (rows_of device rows)) 0 ≡ false)
      × (ltb since (first_cursor (rows_of device rows)) ≡ true)
first-above device since [] u h = cc
first-above device since (r ∷ rows) u h = elim (Bool-cases (r.device_key == device)) [
  | inl own ↦ rw own (ground arith, ground (arith, u.0))
  | inr other ↦ rw other (first-above device since rows u.1 (ground (arith, h, other)))
]

-- A client behind every row of the log is reset.
log_page-reset :
    (device : String) (since : ℕ) (rows : List DeletionRecord)
    → 0 < since
    → All (λ c. since < c) (cursors rows)
    → has_row device rows ≡ true
    → (log_page device since rows).reset ≡ true
unfolding log_page
log_page-reset device since rows p u h =
    let (some_row, behind) = first-above device since rows u h in
    let started : nat_eq since 0 ≡ false = ground arith in rw (some_row, started, behind) refl

issued-middle :
    (n : ℕ) (xs : List DeletionRecord) (r : DeletionRecord) (ys : List DeletionRecord)
    → All (λ c. c ≤ n) (cursors (xs ++ r ∷ ys))
    → r.id ≤ n
issued-middle n [] r ys u = u.0
issued-middle n (x ∷ xs) r ys u = issued-middle n xs r ys u.1

affected-in :
    (device : String) (d : Dict String (Unit {0}))
    → is_some (Dict.get d device) ≡ true
    → is_in device (sorted_devices d) ≡ true
unfolding sorted_devices Dict.get
affected-in device d h =
    is_in-sort device (map (λ e. e.0) d.entries) ∙ is_in-keys device d.entries h

module _ (clock now : ℤ) (since : ℕ) (s : MemoryStore) where
  -- The sweep leaves a log that is ahead of the client, with a row of each device that lost one.
  swept :
      (device : String)
      → Counted device (collect (now -ℤ pos retention) s)
      → All (λ c. since < c) (cursors (collect (now -ℤ pos retention) s).fresh)
      → since ≤ s.del_seq
      → s.del_seq + length (sorted_devices (collect (now -ℤ pos retention) s).affected) < 2 ^ 64
      → All (λ c. since < c) (cursors (cleanup_deletions clock now s).1.dels)
        × (has_row device (cleanup_deletions clock now s).1.dels ≡ true)
  unfolding cleanup_deletions prune
  swept device counted above low room =
      let a = collect (now -ℤ pos retention) s in
      let ds = sorted_devices a.affected in
      let s' : MemoryStore = record s { dels = a.fresh; del_msg = a.del_msg } in
      let some_old : nat_eq a.removed 0 ≡ false = ground (arith, counted.1) in
      rw some_old (
        (add_resets-Ahead clock now since ds s' room (above, low)).0,
        add_resets-has_row clock now device ds s'
            (ground (arith, affected-in device a.affected counted.0)),
      )

  -- CleanupDeletions tells every client that it leaves behind: if it drops a row of a device above the
  -- client's cursor, the next page for this cursor says reset. The rows are in the order of their
  -- times, the log meets its invariant, and the uint64 counter has room for the sentinels.
  pub cleanup_deletions-reset :
      (xs : List DeletionRecord) (r : DeletionRecord) (ys : List DeletionRecord)
      → s.dels ≡ xs ++ r ∷ ys
      → is_old (now -ℤ pos retention) r ≡ true
      → 0 < since
      → since < r.id
      → Aged s.dels
      → IsLogged s
      → s.del_seq + length (sorted_devices (collect (now -ℤ pos retention) s).affected) < 2 ^ 64
      → (deletions_by_device r.device_key since (cleanup_deletions clock now s).1).reset ≡ true
  unfolding collect
  cleanup_deletions-reset xs r ys rows old started behind aged v room =
      let cutoff = now -ℤ pos retention in
      let start : Retained = record {
        affected = Dict.empty;
        fresh = [];
        removed = 0;
        del_msg = s.del_msg;
      } in
      let t = (cleanup_deletions clock now s).1 in
      let counted : Counted r.device_key (collect cutoff s) =
        rw rows (retain_loop-Counted cutoff xs r ys start old) in
      let above : All (λ c. since < c) (cursors (collect cutoff s).fresh) =
        rw (fresh-retain_loop cutoff s.dels start, rows)
          (fresh-above cutoff 0 since xs r ys old behind (rw rows at aged)
            (rw rows at v.ascending)) in
      let low : since ≤ s.del_seq =
        omega (arith, issued-middle s.del_seq xs r ys (rw rows at v.issued)) in
      let (ahead, there) = swept r.device_key counted above low room in
      let logged = (cleanup_deletions-Logs clock now s room v).0 in
      rw (deletions_by_device_lem r.device_key since t logged)
        (log_page-reset r.device_key since t.dels started ahead there)
