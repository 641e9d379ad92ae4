-- ===== src/Gotify/Bolt/Mirror/Log.antt =====
-- internal/gotifycompat/store.go: DeletionsByDevice of a bboltStore that holds the deletion log of a
-- memoryStore.
use timelynotify_server.Base.{
  ℕ, ◌+◌, String, true, false, List, [], ◌∷◌, Option, none, some, ltb, leb, nat_eq, ◌≡◌, refl, sym,
  ap, ◌∙◌, arith, All, Bool-cases, inl, inr, if◌then◌else◌, ◌==◌, string_key,
}
use timelynotify_server.Base.Ascending.{Ascending, Ascending-lower}
use timelynotify_server.Gotify.Model.{DeletionRecord, DeletionsPage, page_limit}
use timelynotify_server.Gotify.Memory.{MemoryStore}
use timelynotify_server.Gotify.Memory.Logged.{cursors, IsLogged}
use timelynotify_server.Gotify.Memory.Log
use timelynotify_server.Gotify.Memory.Log.{is_reset, is_event, empty_page, project, cursor_range}
use timelynotify_server.Gotify.Memory.Log.Range.{
  rows_of, first_cursor, last_cursor, cursor_range-first,
}
use timelynotify_server.Gotify.Memory.Log.Pages.{Ascending-select, last_cursor-zero}
use timelynotify_server.Gotify.Bolt.{Format, BoltStore}
use timelynotify_server.Gotify.Bolt.Table
use timelynotify_server.Gotify.Bolt.Log.{page_loop, deletions_by_device, first_of, last_of}
use timelynotify_server.Gotify.Bolt.Mirror.{ids_of-row_entry, MirrorsRows, MirrorsLog}

module _ {B : Type 0} (format : Format B) where
  -- What a read under the row's cursor finds.
  abbrev FoundIn : List (ℕ × B) → DeletionRecord → Type 0
  FoundIn dels r = (raw : B) × (Table.get dels r.id ≡ some raw) × (format.decode_row raw ≡ some r)

  -- A row in front of larger cursors hides none of them.
  FoundIn-behind :
      (id : ℕ) (raw : B) (t : List (ℕ × B)) (rows : List DeletionRecord)
      → Ascending id (cursors rows)
      → All (FoundIn t) rows
      → All (FoundIn ((id, raw) ∷ t)) rows
  unfolding Table.get
  FoundIn-behind id raw t [] a h = tt
  FoundIn-behind id raw t (r ∷ rows) a h =
      let (v, found, decoded) = h.0 in
      let other : nat_eq id r.id ≡ false = ground arith in
      (
        (v, rw other found, decoded),
        FoundIn-behind id raw t rows (Ascending-lower r.id id (cursors rows) (omega arith) a.1) h.1,
      )

  MirrorsRows-found :
      (lo : ℕ) (dels : List (ℕ × B)) (rows : List DeletionRecord)
      → Ascending lo (cursors rows)
      → MirrorsRows format dels rows
      → All (FoundIn dels) rows
  unfolding Table.get
  MirrorsRows-found lo [] [] a h = tt
  MirrorsRows-found lo [] (r ∷ rows) a h = elim h [ ]
  MirrorsRows-found lo ((id, raw) ∷ t) [] a h = elim h [ ]
  MirrorsRows-found lo ((id, raw) ∷ t) (r ∷ rows) a h =
      let same : nat_eq id r.id ≡ true = ground arith in
      (
        (raw, rw same refl, h.1),
        FoundIn-behind id raw t rows (rw h.0 a.1) (MirrorsRows-found r.id t rows a.1 h.2),
      )

  -- The walk behind the prefix makes the page that the walk of the whole log makes.
  page_loop-mirrors :
      (dels : List (ℕ × B)) (device : String) (since : ℕ) (rows : List DeletionRecord)
      (page : DeletionsPage) (projected last : ℕ)
      → All (FoundIn dels) rows
      → page_loop format dels since (cursors (rows_of device rows)) page projected last
        ≡ some (Log.page_loop device since rows page projected last)
  unfolding page_loop Log.page_loop
  page_loop-mirrors dels device since [] page projected last h = refl
  page_loop-mirrors dels device since (r ∷ rows) page projected last h =
      let (raw, found, decoded) = h.0 in
      elim (Bool-cases (r.device_key == device)) [
        | inr foreign ↦
            rw foreign (page_loop-mirrors dels device since rows page projected last h.1)
        | inl own ↦ elim (Bool-cases (ltb since r.id)) [
          | inr seen ↦
              let old : leb r.id since ≡ true = ground arith in
              rw (own, seen, old) (page_loop-mirrors dels device since rows page projected last h.1)
          | inl unseen ↦
              let new : leb r.id since ≡ false = ground arith in
              elim (Bool-cases (is_reset r.kind)) [
                | inl gap ↦
                    rw (own, unseen, new, found, decoded, gap)
                      (page_loop-mirrors dels device since rows page projected last h.1)
                | inr event ↦ elim (Bool-cases (nat_eq projected page_limit)) [
                  | inl full ↦ rw (own, unseen, new, found, decoded, event, full) refl
                  | inr room ↦
                      rw (own, unseen, new, found, decoded, event, room)
                        (page_loop-mirrors dels device since rows (project r page) (projected + 1)
                          r.id h.1)
                ]
              ]
        ]
      ]

last_of-cursors :
    (n : ℕ) (rows : List DeletionRecord) → last_of n (cursors rows) ≡ last_cursor n rows
last_of-cursors n [] = refl
last_of-cursors n (r ∷ rows) = last_of-cursors r.id rows

-- The tests of bboltStore, on the cursors behind the prefix.
abbrev choose : List ℕ → ℕ → (DeletionsPage → Option DeletionsPage) → Option DeletionsPage
choose ids since walk = elim (first_of ids) as (λ _. Option DeletionsPage) [
  | none ↦ some empty_page
  | some min ↦
      let page : DeletionsPage = record empty_page { cursor = last_of 0 ids } in
      if nat_eq since 0
      then some page
      else if ltb since min
      then some (record page { reset = true })
      else walk page
]

-- The tests of memoryStore, on the smallest and the largest cursor.
abbrev chosen : ℕ × ℕ → ℕ → (DeletionsPage → DeletionsPage) → DeletionsPage
chosen (min, max) since walk =
    if nat_eq max 0
    then empty_page
    else if nat_eq since 0
    then record empty_page { cursor = max }
    else if ltb since min
    then record empty_page { cursor = max; reset = true }
    else walk (record empty_page { cursor = max })

choose-mirrors :
    (own : List DeletionRecord) (since : ℕ) (walk : DeletionsPage → Option DeletionsPage)
    (mirrored : DeletionsPage → DeletionsPage)
    → Ascending 0 (cursors own)
    → ((page : DeletionsPage) → walk page ≡ some (mirrored page))
    → choose (cursors own) since walk
      ≡ some (chosen (first_cursor own, last_cursor 0 own) since mirrored)
choose-mirrors [] since walk mirrored a agree = refl
choose-mirrors (r ∷ rows) since walk mirrored a agree =
    let page : DeletionsPage = record empty_page { cursor = last_cursor r.id rows } in
    let logged : nat_eq (last_cursor r.id rows) 0 ≡ false =
      last_cursor-zero (r ∷ rows) a ∙ ground arith in
    elim (Bool-cases (nat_eq since 0)) [
      | inl first ↦ rw (logged, last_of-cursors r.id rows, first) refl
      | inr later ↦ elim (Bool-cases (ltb since r.id)) [
        | inl behind ↦ rw (logged, last_of-cursors r.id rows, later, behind) refl
        | inr reached ↦ rw (logged, last_of-cursors r.id rows, later, reached) (agree page)
      ]
    ]

-- DeletionsByDevice of a bboltStore whose log is the log of a memoryStore that meets its invariant
-- returns the page that the memoryStore returns.
pub deletions_by_device-mirrors :
    {B : Type 0} (format : Format B) (b : BoltStore B) (s : MemoryStore)
    → MirrorsLog format b s
    → IsLogged s
    → (device : String) (since : ℕ)
    → deletions_by_device format device since b ≡ some (Log.deletions_by_device device since s)
unfolding deletions_by_device Log.deletions_by_device
deletions_by_device-mirrors format b s h v device since =
    let own = rows_of device s.dels in
    let walk =
      λ (ids : List ℕ) (page : DeletionsPage). page_loop format b.dels since ids page 0 0 in
    let mirrored = λ (page : DeletionsPage). Log.page_loop device since s.dels page 0 0 in
    ap (λ ids. choose ids since (walk ids))
      (ap (λ l. Table.ids_of l device) h.index ∙ ids_of-row_entry device s.dels)
    ∙ choose-mirrors own since (walk (cursors own)) mirrored
        (Ascending-select (λ r. r.device_key == device) 0 s.dels v.ascending)
        (λ page.
          page_loop-mirrors format b.dels device since s.dels page 0 0
            (MirrorsRows-found format 0 b.dels s.dels v.ascending h.rows))
    ∙ ap (λ range. some (chosen range since mirrored))
        (sym (cursor_range-first device 0 s.dels v.ascending))
