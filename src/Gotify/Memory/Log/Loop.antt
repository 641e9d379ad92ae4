-- ===== src/Gotify/Memory/Log/Loop.antt =====
-- The loop of DeletionsByDevice against the list of the events that a client still has to see.
use timelynotify_server.Base.{
  ℕ, zero, suc, ◌+◌, String, true, false, List, [], ◌∷◌, ◌≡◌, refl, ◌∙◌, arith, length, select,
  take, nat_eq, ltb, if◌then◌else◌, string_key, Bool-cases, inl, inr,
}
use timelynotify_server.Gotify.Model.{DeletionRecord, DeletionsPage, page_limit}
use timelynotify_server.Gotify.Memory.Log.Range.{last_cursor}
use timelynotify_server.Gotify.Memory.Log.{is_event, project, page_loop}

-- The rows that a client with the cursor `since` still has to see.
abbrev pub events : String → ℕ → List DeletionRecord → List DeletionRecord
events device since = select (is_event device since)

unfoldable pub project_all : List DeletionRecord → DeletionsPage → DeletionsPage
project_all [] page = page
project_all (r ∷ rows) page = project_all rows (project r page)

-- The first `k` events; if there are more, the page says so and its cursor is the last one's.
unfoldable pub finish : ℕ → DeletionsPage → ℕ → List DeletionRecord → DeletionsPage
finish k page last [] = page
finish zero page last (r ∷ rows) = record page { has_more = true; cursor = last }
finish (suc k) page last (r ∷ rows) = finish k (project r page) r.id rows

pub page_loop-finish :
    (device : String) (since : ℕ) (rows : List DeletionRecord) (page : DeletionsPage)
    (k projected last : ℕ)
    → projected + k ≡ page_limit
    → page_loop device since rows page projected last
      ≡ finish k page last (events device since rows)
unfolding page_loop finish
page_loop-finish device since [] page k projected last h = refl
page_loop-finish device since (r ∷ rows) page zero projected last h =
    elim (Bool-cases (is_event device since r)) [
      | inl event ↦ let full : nat_eq projected page_limit ≡ true = ground arith in rw (event, full)
      | inr other ↦ rw (other, page_loop-finish device since rows page zero projected last h)
    ]
page_loop-finish device since (r ∷ rows) page (suc k) projected last h =
    elim (Bool-cases (is_event device since r)) [
      | inl event ↦
          let room : nat_eq projected page_limit ≡ false = ground arith in
          rw (
            event,
            room,
            page_loop-finish device since rows (project r page) k (projected + 1) r.id
                (omega arith),
          )
      | inr other ↦ rw (other, page_loop-finish device since rows page (suc k) projected last h)
    ]

-- The page that holds the first `k` events, and says whether more follow.
pub finish-take :
    (k : ℕ) (page : DeletionsPage) (last : ℕ) (rows : List DeletionRecord)
    → finish k page last rows ≡ (
        if ltb k (length rows)
        then record (project_all (take k rows) page) {
          has_more = true;
          cursor = last_cursor last (take k rows);
        }
        else project_all (take k rows) page)
unfolding finish project_all
finish-take zero page last [] = refl
finish-take (suc k) page last [] = ground arith
finish-take zero page last (r ∷ rows) = ground arith
finish-take (suc k) page last (r ∷ rows) = finish-take k (project r page) r.id rows ∙ ground arith
