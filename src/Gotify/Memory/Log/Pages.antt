-- ===== src/Gotify/Memory/Log/Pages.antt =====
-- A page of memoryStore's deletion log against the log as a list.
use timelynotify_server.Base.{
  ℕ, ◌≤◌, String, Bool, true, false, List, [], ◌∷◌, ◌++◌, Option, none, some, ℤ, ◌≡◌, refl, ◌∙◌,
  arith, length, select, take, nat_eq, ltb, if◌then◌else◌, ◌==◌, string_key, Bool-cases, inl, inr,
}
use timelynotify_server.Base.Ascending.{Ascending, Ascending-lower}
use mathlib.Core.List.{append-nil}
use timelynotify_server.Base.{append_cons, take_of_length-le}
use timelynotify_server.Base.Strconv.{parse_int}
use timelynotify_server.Gotify.Model.{
  DeletionKind, single, purge, reset, by_extra_id, DeletionRecord, DeletionsPage, page_limit,
}
use timelynotify_server.Gotify.Memory.{MemoryStore}
use timelynotify_server.Gotify.Memory.Logged.{cursors, IsLogged}
use timelynotify_server.Gotify.Memory.Log.Range.{
  rows_of, last_cursor, first_cursor, cursor_range-first,
}
use timelynotify_server.Gotify.Memory.Log.Loop.{events, project_all, page_loop-finish, finish-take}
use timelynotify_server.Gotify.Memory.Log.{
  empty_page, project, page_loop, project_kind, add_extra, deletions_by_device,
}

abbrev id_part : DeletionRecord → DeletionKind → List ℕ
id_part r single = r.message_id ∷ []
id_part r _ = []

abbrev ceiling_part : DeletionRecord → DeletionKind → List ℕ
ceiling_part r purge = r.ceiling ∷ []
ceiling_part r _ = []

abbrev number_part : Option ℤ → List ℤ
number_part none = []
number_part (some n) = n ∷ []

abbrev extra_part : DeletionRecord → DeletionKind → List ℤ
extra_part r by_extra_id = number_part (parse_int r.extra_id)
extra_part r _ = []

-- What the rows of each kind tell the client, in log order.
ids_of : List DeletionRecord → List ℕ
ids_of [] = []
ids_of (r ∷ rows) = id_part r r.kind ++ ids_of rows

ceilings_of : List DeletionRecord → List ℕ
ceilings_of [] = []
ceilings_of (r ∷ rows) = ceiling_part r r.kind ++ ceilings_of rows

extras_of : List DeletionRecord → List ℤ
extras_of [] = []
extras_of (r ∷ rows) = extra_part r r.kind ++ extras_of rows

-- The page that lists the rows.
unfoldable pub page_of_rows : List DeletionRecord → ℕ → Bool → DeletionsPage
unfolding ids_of ceilings_of extras_of
page_of_rows rows cursor more = record {
  ids = ids_of rows;
  purges = ceilings_of rows;
  extra_ids = extras_of rows;
  cursor = cursor;
  has_more = more;
  reset = false;
}

-- What a page must be, by the log as a list: nothing for a device without rows; its last cursor
-- for a client that starts; a reset for one that is behind the oldest row; and otherwise the
-- first page_limit events, with the cursor to go on from.
unfoldable pub log_page : String → ℕ → List DeletionRecord → DeletionsPage
unfolding page_of_rows
log_page device since dels =
    let rows = rows_of device dels in
    let pending = events device since dels in
    let shown = take page_limit pending in
    let newest = last_cursor 0 rows in
    if nat_eq (length rows) 0
    then empty_page
    else if nat_eq since 0
    then record empty_page { cursor = newest }
    else if ltb since (first_cursor rows)
    then record empty_page { cursor = newest; reset = true }
    else if ltb page_limit (length pending)
    then page_of_rows shown (last_cursor 0 shown) true
    else page_of_rows pending newest false

extended : DeletionsPage → List DeletionRecord → DeletionsPage
extended page rows = record page {
  ids = page.ids ++ ids_of rows;
  purges = page.purges ++ ceilings_of rows;
  extra_ids = page.extra_ids ++ extras_of rows;
}

extended-nil : (page : DeletionsPage) → page ≡ extended page []
unfolding extended ids_of ceilings_of extras_of
extended-nil page = simp append-nil

extended-extra :
    (r : DeletionRecord) (n : Option ℤ) (page : DeletionsPage) (rows : List DeletionRecord)
    → extended (add_extra n page) rows ≡ record (extended page rows) {
      extra_ids = page.extra_ids ++ (number_part n ++ extras_of rows);
    }
unfolding extended add_extra
extended-extra r none page rows = refl
extended-extra r (some n) page rows = simp append_cons

extended-kind :
    (k : DeletionKind) (r : DeletionRecord) (page : DeletionsPage) (rows : List DeletionRecord)
    → extended (project_kind k r page) rows ≡ record page {
      ids = page.ids ++ (id_part r k ++ ids_of rows);
      purges = page.purges ++ (ceiling_part r k ++ ceilings_of rows);
      extra_ids = page.extra_ids ++ (extra_part r k ++ extras_of rows);
    }
unfolding extended project_kind
extended-kind single r page rows = simp append_cons
extended-kind purge r page rows = simp append_cons
extended-kind reset r page rows = refl
extended-kind by_extra_id r page rows = extended-extra r (parse_int r.extra_id) page rows

extended-cons :
    (r : DeletionRecord) (page : DeletionsPage) (rows : List DeletionRecord)
    → extended (project r page) rows ≡ extended page (r ∷ rows)
unfolding extended project ids_of ceilings_of extras_of
extended-cons r page rows = extended-kind r.kind r page rows

project_all-extended :
    (rows : List DeletionRecord) (page : DeletionsPage) → project_all rows page ≡ extended page rows
unfolding project_all
project_all-extended [] page = extended-nil page
project_all-extended (r ∷ rows) page =
    project_all-extended rows (project r page) ∙ extended-cons r page rows

pub Ascending-select :
    (p : DeletionRecord → Bool) (lo : ℕ) (rows : List DeletionRecord)
    → Ascending lo (cursors rows)
    → Ascending lo (cursors (select p rows))
Ascending-select p lo [] a = tt
Ascending-select p lo (r ∷ rows) a = elim (Bool-cases (p r)) [
  | inl keeps ↦ rw keeps (a.0, Ascending-select p r.id rows a.1)
  | inr drops ↦ rw drops (Ascending-select p lo rows (Ascending-lower r.id lo _ (omega arith) a.1))
]

pub last_cursor-le :
    (lo : ℕ) (rows : List DeletionRecord) → Ascending lo (cursors rows) → lo ≤ last_cursor lo rows
last_cursor-le lo [] a = omega arith
last_cursor-le lo (r ∷ rows) a = let rest = last_cursor-le r.id rows a.1 in omega arith

-- The last cursor is 0 exactly for a device without rows.
pub last_cursor-zero :
    (rows : List DeletionRecord)
    → Ascending 0 (cursors rows)
    → nat_eq (last_cursor 0 rows) 0 ≡ nat_eq (length rows) 0
last_cursor-zero [] a = refl
last_cursor-zero (r ∷ rows) a = let rest = last_cursor-le r.id rows a.1 in ground arith

-- The loop builds the page of the events.
page_loop_lem :
    (device : String) (since newest : ℕ) (dels : List DeletionRecord)
    → page_loop device since dels (record empty_page { cursor = newest }) 0 0 ≡ (
        let pending = events device since dels in
        let shown = take page_limit pending in
        if ltb page_limit (length pending)
        then page_of_rows shown (last_cursor 0 shown) true
        else page_of_rows pending newest false)
unfolding page_of_rows extended
page_loop_lem device since newest dels =
    let pending = events device since dels in
    let start : DeletionsPage = record empty_page { cursor = newest } in
    page_loop-finish device since dels start page_limit 0 0 refl
    ∙ finish-take page_limit start 0 pending
    ∙ elim (Bool-cases (ltb page_limit (length pending))) [
      | inl more ↦ rw (more, project_all-extended (take page_limit pending) start) refl
      | inr last ↦
          rw
            (
              last,
              take_of_length-le page_limit pending (ground arith),
              project_all-extended pending start,
            )
            refl
    ]

-- The device's page is the one that the log as a list calls for.
pub deletions_by_device_lem :
    (device : String) (since : ℕ) (s : MemoryStore)
    → IsLogged s
    → deletions_by_device device since s ≡ log_page device since s.dels
unfolding deletions_by_device log_page
deletions_by_device_lem device since s v =
    let own = Ascending-select (λ r. r.device_key == device) 0 s.dels v.ascending in
    rw
      (
        cursor_range-first device 0 s.dels v.ascending,
        last_cursor-zero (rows_of device s.dels) own,
        page_loop_lem device since (last_cursor 0 (rows_of device s.dels)) s.dels,
      )
      refl
