-- ===== src/Gotify/Memory/Log/Range.antt =====
-- The smallest and the largest cursor of a device, as DeletionsByDevice finds them.
use timelynotify_server.Base.{
  ℕ, ◌≤◌, ◌<◌, String, true, false, List, [], ◌∷◌, ◌≡◌, refl, arith, select, nat_eq, ltb, ◌==◌,
  string_key, Bool-cases, inl, inr,
}
use timelynotify_server.Base.Ascending.{Ascending, Ascending-lower}
use timelynotify_server.Gotify.Model.{DeletionRecord}
use timelynotify_server.Gotify.Memory.Logged.{cursors}
use timelynotify_server.Gotify.Memory.Log.{cursor_range}

-- The rows of the device.
abbrev pub rows_of : String → List DeletionRecord → List DeletionRecord
rows_of device = select (λ r. r.device_key == device)

-- The cursor of the last row, or `last` if there is none.
abbrev pub last_cursor : ℕ → List DeletionRecord → ℕ
last_cursor last [] = last
last_cursor last (r ∷ rows) = last_cursor r.id rows

-- The cursor of the first row, 0 if there is none.
abbrev pub first_cursor : List DeletionRecord → ℕ
first_cursor [] = 0
first_cursor (r ∷ rows) = r.id

-- Once a row of the device is seen, the smallest cursor is fixed and the largest one moves on.
cursor_range-next :
    (device : String) (lo : ℕ) (rows : List DeletionRecord) (min max : ℕ)
    → 0 < min
    → min ≤ lo
    → max ≤ lo
    → Ascending lo (cursors rows)
    → cursor_range device rows (min, max) ≡ (min, last_cursor max (rows_of device rows))
unfolding cursor_range
cursor_range-next device lo [] min max p h k a = refl
cursor_range-next device lo (r ∷ rows) min max p h k a =
    elim (Bool-cases (r.device_key == device)) [
      | inl own ↦
          let set : nat_eq min 0 ≡ false = ground arith in
          let low : ltb r.id min ≡ false = ground arith in
          let high : ltb max r.id ≡ true = ground arith in
          rw (own, set, low, high)
            (cursor_range-next device r.id rows min r.id p (omega arith) (omega arith) a.1)
      | inr other ↦ rw other (
          cursor_range-next device lo rows min max p h k
            (Ascending-lower r.id lo _ (omega arith) a.1))
    ]

pub cursor_range-first :
    (device : String) (lo : ℕ) (rows : List DeletionRecord)
    → Ascending lo (cursors rows)
    → cursor_range device rows (0, 0)
      ≡ (first_cursor (rows_of device rows), last_cursor 0 (rows_of device rows))
unfolding cursor_range
cursor_range-first device lo [] a = refl
cursor_range-first device lo (r ∷ rows) a = elim (Bool-cases (r.device_key == device)) [
  | inl own ↦
      let high : ltb 0 r.id ≡ true = ground arith in
      rw (own, high)
        (cursor_range-next device r.id rows r.id r.id (omega arith) (omega arith) (omega arith) a.1)
  | inr other ↦
      rw other (cursor_range-first device lo rows (Ascending-lower r.id lo _ (omega arith) a.1))
]
