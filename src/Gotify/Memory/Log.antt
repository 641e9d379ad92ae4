-- ===== src/Gotify/Memory/Log.antt =====
-- internal/gotifycompat/store.go, memoryStore.DeletionsByDevice: one page of the deletion log.
pub mod Range
pub mod Loop
pub mod Pages
pub mod Resume
pub mod Baseline
use timelynotify_server.Base.{
  ℕ, ◌+◌, String, Bool, true, false, ◌&&◌, ◌||◌, not, List, [], ◌∷◌, ◌++◌, Option, none, some, ℤ,
  nat_eq, ltb, leb, if◌then◌else◌, ◌==◌, string_key, length,
}
use timelynotify_server.Base.Strconv.{parse_int}
use timelynotify_server.Gotify.Model.{
  DeletionKind, single, purge, reset, by_extra_id, DeletionRecord, DeletionsPage, page_limit,
}
use timelynotify_server.Gotify.Memory.{MemoryStore}

abbrev pub is_reset : DeletionKind → Bool
is_reset reset = true
is_reset _ = false

abbrev pub empty_page : DeletionsPage
empty_page = record {
  ids = [];
  purges = [];
  extra_ids = [];
  cursor = 0;
  has_more = false;
  reset = false;
}

-- The smallest and the largest cursor of the device; both are 0 if it has no row.
unfoldable pub cursor_range : String → List DeletionRecord → ℕ × ℕ → ℕ × ℕ
cursor_range device [] (min, max) = (min, max)
cursor_range device (r ∷ rows) (min, max) =
    let own = r.device_key == device in
    cursor_range device rows (
      if own && (nat_eq min 0 || ltb r.id min) then r.id else min,
      if own && ltb max r.id then r.id else max,
    )

unfoldable pub add_extra : Option ℤ → DeletionsPage → DeletionsPage
add_extra none page = page
add_extra (some n) page = record page { extra_ids = page.extra_ids ++ n ∷ [] }

unfoldable pub project_kind : DeletionKind → DeletionRecord → DeletionsPage → DeletionsPage
project_kind single r page = record page { ids = page.ids ++ r.message_id ∷ [] }
project_kind purge r page = record page { purges = page.purges ++ r.ceiling ∷ [] }
project_kind by_extra_id r page = add_extra (parse_int r.extra_id) page
project_kind reset r page = page

-- The row's contribution to the page.
unfoldable pub project : DeletionRecord → DeletionsPage → DeletionsPage
unfolding project_kind add_extra
project r page = project_kind r.kind r page

-- An event that the client sees: a row of the device after its cursor that is no gap marker.
abbrev pub is_event : String → ℕ → DeletionRecord → Bool
is_event device since r = (r.device_key == device) && ltb since r.id && not (is_reset r.kind)

unfoldable pub page_loop : String → ℕ → List DeletionRecord → DeletionsPage → ℕ → ℕ → DeletionsPage
page_loop device since [] page projected last = page
page_loop device since (r ∷ rows) page projected last =
    let event = is_event device since r in
    let rest =
      page_loop device since rows (if event then project r page else page)
        (if event then projected + 1 else projected) (if event then r.id else last) in
    if event && nat_eq projected page_limit
    then record page { has_more = true; cursor = last }
    else rest

unfoldable pub deletions_by_device : String → ℕ → MemoryStore → DeletionsPage
unfolding cursor_range page_loop project
deletions_by_device device since s =
    let (min, max) = cursor_range device s.dels (0, 0) in
    if nat_eq max 0
    then empty_page
    else if nat_eq since 0
    then record empty_page { cursor = max }
    else if ltb since min
    then record empty_page { cursor = max; reset = true }
    else page_loop device since s.dels (record empty_page { cursor = max }) 0 0
