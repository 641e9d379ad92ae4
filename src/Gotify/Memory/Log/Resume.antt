-- ===== src/Gotify/Memory/Log/Resume.antt =====
-- A client that reads memoryStore's deletion log page by page.
use timelynotify_server.Base.{
  ℕ, zero, suc, ◌≤◌, ◌<◌, String, Bool, true, false, List, [], ◌∷◌, ◌≡◌, refl, ap, ◌∙◌, arith,
  length, select, take, drop, nat_eq, ltb, if◌then◌else◌, string_key, Bool-cases, inl, inr,
}
use timelynotify_server.Base.Ascending.{Ascending}
use timelynotify_server.Gotify.Model.{DeletionRecord, DeletionsPage, page_limit}
use timelynotify_server.Gotify.Memory.{MemoryStore}
use timelynotify_server.Gotify.Memory.Logged.{cursors, IsLogged}
use timelynotify_server.Gotify.Memory.Log.{is_event, empty_page, deletions_by_device}
use timelynotify_server.Gotify.Memory.Log.Range.{rows_of, last_cursor, first_cursor}
use timelynotify_server.Gotify.Memory.Log.Loop.{events}
use timelynotify_server.Gotify.Memory.Log.Pages.{
  log_page, page_of_rows, Ascending-select, last_cursor-le, deletions_by_device_lem,
}

select-above :
    (lo c : ℕ) (rows : List DeletionRecord)
    → c ≤ lo
    → Ascending lo (cursors rows)
    → select (λ r. ltb c r.id) rows ≡ rows
select-above lo c [] h a = refl
select-above lo c (r ∷ rows) h a =
    let above : ltb c r.id ≡ true = ground arith in
    rw above (ap (◌∷◌ r) (select-above r.id c rows (omega arith) a.1))

Ascending-take :
    (k lo : ℕ) (rows : List DeletionRecord)
    → Ascending lo (cursors rows)
    → Ascending lo (cursors (take k rows))
Ascending-take zero lo rows a = tt
Ascending-take (suc k) lo [] a = tt
Ascending-take (suc k) lo (r ∷ rows) a = (a.0, Ascending-take k r.id rows a.1)

-- What is above the cursor of the k-th row is what follows it.
select-drop :
    (k lo : ℕ) (rows : List DeletionRecord)
    → Ascending lo (cursors rows)
    → k < length rows
    → select (λ r. ltb (last_cursor lo (take k rows)) r.id) rows ≡ drop k rows
select-drop zero lo rows a h = select-above lo lo rows (omega arith) a
select-drop (suc k) lo [] a h = absurd (omega arith)
select-drop (suc k) lo (r ∷ rows) a h =
    let c = last_cursor r.id (take k rows) in
    let past = last_cursor-le r.id (take k rows) (Ascending-take k r.id rows a.1) in
    let below : ltb c r.id ≡ false = ground arith in
    rw below (select-drop k r.id rows a.1 (omega arith))

-- A later cursor only drops events.
events-later :
    (device : String) (since c : ℕ) (dels : List DeletionRecord)
    → since ≤ c
    → events device c dels ≡ select (λ r. ltb c r.id) (events device since dels)
events-later device since c [] h = refl
events-later device since c (r ∷ dels) h = ground (arith, events-later device since c dels h)

events-Ascending :
    (device : String) (since lo : ℕ) (dels : List DeletionRecord)
    → Ascending lo (cursors dels)
    → Ascending since (cursors (events device since dels))
events-Ascending device since lo [] a = tt
events-Ascending device since lo (r ∷ dels) a = elim (Bool-cases (is_event device since r)) [
  | inl event ↦
      rw event (ground (arith, event), Ascending-select (is_event device since) r.id dels a.1)
  | inr other ↦ rw other (events-Ascending device since r.id dels a.1)
]

last_cursor-take :
    (k a b : ℕ) (rows : List DeletionRecord)
    → k < length rows
    → 0 < k
    → last_cursor a (take k rows) ≡ last_cursor b (take k rows)
last_cursor-take zero a b rows h p = absurd (omega arith)
last_cursor-take (suc k) a b [] h p = absurd (omega arith)
last_cursor-take (suc k) a b (r ∷ rows) h p = refl

-- Of the five pages, only the fourth says that there is more.
only-more :
    (a b c d : Bool) (p q r more last : DeletionsPage)
    → p.has_more ≡ false
    → q.has_more ≡ false
    → r.has_more ≡ false
    → last.has_more ≡ false
    → (if a then p else if b then q else if c then r else if d then more else last).has_more ≡ true
    → ((if a then p else if b then q else if c then r else if d then more else last) ≡ more)
      × (d ≡ true)
only-more true b c d p q r more last hp hq hr hl h = cc
only-more false true c d p q r more last hp hq hr hl h = cc
only-more false false true d p q r more last hp hq hr hl h = cc
only-more false false false true p q r more last hp hq hr hl h = (refl, refl)
only-more false false false false p q r more last hp hq hr hl h = cc

module _ (device : String) (since : ℕ) (s : MemoryStore) (v : IsLogged s) where
  -- A page that says there is more has the cursor of the last of its events.
  more-page :
      (deletions_by_device device since s).has_more ≡ true
      → ((deletions_by_device device since s).cursor
          ≡ last_cursor 0 (take page_limit (events device since s.dels)))
        × (page_limit < length (events device since s.dels))
  unfolding log_page
  more-page more =
      let same = deletions_by_device_lem device since s v in
      let told : (log_page device since s.dels).has_more ≡ true = rw same at more in
      let rows = rows_of device s.dels in
      let pending = events device since s.dels in
      let shown = take page_limit pending in
      let newest = last_cursor 0 rows in
      let found =
        only-more (nat_eq (length rows) 0) (nat_eq since 0) (ltb since (first_cursor rows))
          (ltb page_limit (length pending)) empty_page (record empty_page { cursor = newest })
          (record empty_page { cursor = newest; reset = true })
          (page_of_rows shown (last_cursor 0 shown) true) (page_of_rows pending newest false) refl
          refl refl refl told in
      (ap (λ p. p.cursor) (same ∙ found.0), ground (arith, found.1))

  -- Asking again from the cursor of a page that is not the last one gives the events after it.
  pub deletions_by_device-resume :
      (deletions_by_device device since s).has_more ≡ true
      → events device (deletions_by_device device since s).cursor s.dels
        ≡ drop page_limit (events device since s.dels)
  deletions_by_device-resume more =
      let (same, longer) = more-page more in
      let pending = events device since s.dels in
      let above = events-Ascending device since 0 s.dels v.ascending in
      let later =
        last_cursor-le since (take page_limit pending)
          (Ascending-take page_limit since pending above) in
      rw
        (
          same,
          last_cursor-take page_limit 0 since pending longer (omega arith),
          events-later device since (last_cursor since (take page_limit pending)) s.dels later,
        )
        (select-drop page_limit since pending above longer)
