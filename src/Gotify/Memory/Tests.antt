-- ===== src/Gotify/Memory/Tests.antt =====
-- Concrete runs of memoryStore, and the theorems at them.
use Prim.Native.Nat.{◌^◌}
use timelynotify_server.Base.{
  none, some, ℕ, zero, suc, map, leb, ◌&&◌, if◌then◌else◌, String, true, List, [], ◌∷◌, ℤ, pos, ◌≡◌,
  refl, arith, length, codes, nat_key, string_key, text_key, ◌+◌, ◌≤◌, ◌<◌, drop, ◌-ℤ◌,
}
use timelynotify_server.Base.Dict
use timelynotify_server.Gotify.Value.{Value}
use timelynotify_server.Gotify.Model.{
  Message, DeletionRecord, page_limit, extra_row, single_row, source_device,
}
use timelynotify_server.Gotify.Memory
use timelynotify_server.Gotify.Memory.{
  MemoryStore, new_memory_store, zero_message, add_deletion, cursor_of, store_message,
  upsert_by_extra_id, find_extra,
}
use timelynotify_server.Gotify.Memory.Valid.{IsValid, new_memory_store-IsValid}
use timelynotify_server.Gotify.Memory.Logged.{
  IsLogged, new_memory_store-IsLogged, add_deletion-IsLogged,
}
use timelynotify_server.Gotify.Memory.Logged.Calls.{
  add_deletion-Logs, row_bound, row_bounds, run-IsLogged,
}
use timelynotify_server.Gotify.Memory.{of_device}
use timelynotify_server.Gotify.Memory.Sweeps.{is_due, expire_messages, delete_all_by_device}
use timelynotify_server.Gotify.Memory.Expiry.{get-expire_messages}
use timelynotify_server.Gotify.Memory.Purges.{is_purged}
use timelynotify_server.Gotify.Memory.Purges.Wiped.{delete_all_by_device-covers}
use timelynotify_server.Gotify.Memory.Logged.Tombstones.{has_tombstone, Tracks, step-Tracks}
use timelynotify_server.Gotify.Memory.Run.{step, Call, upsert, run, run-IsValid, add-run-lt}
use timelynotify_server.Gotify.Memory.Sweeps.{cleanup_deletions, collect, sorted_devices}
use timelynotify_server.Gotify.Memory.Logged.Gap.{Aged}
use timelynotify_server.Gotify.Memory.Logged.Resets.{cleanup_deletions-reset}
use timelynotify_server.Gotify.Memory.Log.{deletions_by_device}
use timelynotify_server.Gotify.Memory.Log.Baseline.{IsSilent, deletions_by_device-first_cursor}
use timelynotify_server.Gotify.Memory.Log.Loop.{events}
use timelynotify_server.Gotify.Memory.Log.Pages.{log_page, deletions_by_device_lem}
use timelynotify_server.Gotify.Memory.Log.Resume.{deletions_by_device-resume}
use timelynotify_server.Gotify.Memory.Reads.{
  recent_page_by_device, after_by_device, search_by_device,
}
use timelynotify_server.Gotify.Memory.Reads.Pages.{
  page, has_next, capped, newest, oldest, recent_page_by_device_lem, after_by_device_lem,
}
use timelynotify_server.Gotify.Memory.Reads.Search.{matching, search_by_device_lem}

-- A message of a device with an extras.id and a deadline.
abbrev note : String → String → ℤ → Message
note device id expiry = record zero_message {
  message = "hello";
  device_key = device;
  extras = Dict.put Dict.empty "id" (Value.str id);
  expires_at = expiry;
}

-- A store for two messages that has taken three.
abbrev calls : List (ℤ × Call)
calls =
    (pos 10, Call.add (note "phone" "1" (pos 50)))
    ∷ (pos 11, upsert "desk" (codes "7") (note "desk" "7" (pos 0)))
    ∷ (pos 12, Call.add (note "phone" "2" (pos 0)))
    ∷ []

unfoldable busy : MemoryStore
unfolding run Memory.add upsert_by_extra_id source_device Dict.get Dict.put Memory.cursor_of
busy = run calls (new_memory_store 2)

busy_order : busy.order ≡ 2 ∷ 3 ∷ []
unfolding busy
busy_order = refl

busy_rows : busy.del_seq ≡ 1
unfolding busy
busy_rows = refl

run-IsValid_example : IsValid (run calls (new_memory_store 2))
run-IsValid_example =
    run-IsValid calls (new_memory_store 2) (omega arith) (new_memory_store-IsValid 2)

add-run-lt_example :
    (Memory.add (pos 1) (note "phone" "1" (pos 0)) busy).0
    < (Memory.add
        (pos 9)
        (note "phone" "2" (pos 0))
        (run calls (Memory.add (pos 1) (note "phone" "1" (pos 0)) busy).1)).0
unfolding busy
add-run-lt_example =
    add-run-lt (pos 1) (pos 9) (note "phone" "1" (pos 0)) (note "phone" "2" (pos 0)) calls busy
      (omega arith)

run-IsLogged_example : IsLogged (run calls (new_memory_store 2))
unfolding row_bounds run
run-IsLogged_example =
    run-IsLogged calls (new_memory_store 2) (omega arith) (new_memory_store-IsLogged 2)

-- A log of two rows for one device.
abbrev first_row : DeletionRecord
first_row = single_row "phone" 4

abbrev logged_once : MemoryStore
logged_once = (add_deletion (pos 5) first_row (new_memory_store 9)).1

abbrev logged : MemoryStore
logged = (add_deletion (pos 6) (extra_row "phone" (codes "7")) logged_once).1

logged_once-IsLogged : IsLogged logged_once
logged_once-IsLogged =
    add_deletion-IsLogged (pos 5) first_row (new_memory_store 9) (omega arith)
      (new_memory_store-IsLogged 9)

logged-IsLogged : IsLogged logged
unfolding add_deletion cursor_of Dict.get
logged-IsLogged =
    add_deletion-IsLogged (pos 6) (extra_row "phone" (codes "7")) logged_once (omega arith)
      logged_once-IsLogged

deletions_by_device_lem_example :
    deletions_by_device "phone" 1 logged ≡ log_page "phone" 1 logged.dels
deletions_by_device_lem_example = deletions_by_device_lem "phone" 1 logged logged-IsLogged

recent_page_by_device_lem_example :
    recent_page_by_device "phone" (pos 1) 0 busy
    ≡ (if has_next (pos 1) then some (page (pos 1) (newest "phone" busy 0)) else none)
recent_page_by_device_lem_example = recent_page_by_device_lem "phone" busy (pos 1) 0

after_by_device_lem_example :
    after_by_device "desk" 1 (pos 5) busy
    ≡ (if has_next (pos 5) then some (page (pos 5) (oldest "desk" busy 1)) else none)
after_by_device_lem_example = after_by_device_lem "desk" busy 1 (pos 5)

-- More rows than a page holds.
unfoldable many : ℕ → MemoryStore
unfolding add_deletion
many zero = new_memory_store 9
many (suc n) = (add_deletion (pos 5) (extra_row "phone" (codes "7")) (many n)).1

many-IsLogged : (n : ℕ) → n + 1 < 2 ^ 64 → IsLogged (many n) × ((many n).del_seq ≤ n)
unfolding many
many-IsLogged zero h = (new_memory_store-IsLogged 9, omega arith)
many-IsLogged (suc n) h =
    let (v, few) = many-IsLogged n (omega arith) in
    let (w, more) =
      add_deletion-Logs (pos 5) (extra_row "phone" (codes "7")) (many n) (omega arith) v in
    (w, omega arith)

many-has_more : (deletions_by_device "phone" 1 (many 510)).has_more ≡ true
unfolding many deletions_by_device
many-has_more = refl

deletions_by_device-resume_example :
    events "phone" (deletions_by_device "phone" 1 (many 510)).cursor (many 510).dels
    ≡ drop page_limit (events "phone" 1 (many 510).dels)
deletions_by_device-resume_example =
    deletions_by_device-resume "phone" 1 (many 510) (many-IsLogged 510 (omega arith)).0
      many-has_more

-- What strings.ToLower does to the letters of ASCII.
ascii_lower : ℕ → ℕ
ascii_lower c = if leb 65 c && leb c 90 then c + 32 else c

search_by_device_lem_example :
    search_by_device ascii_lower "phone" (codes "HELL") (pos 1) 0 busy ≡ (
      capped
          (pos 1)
          (matching ascii_lower (map ascii_lower (codes "HELL")) (newest "phone" busy 0)),
      length (matching ascii_lower (map ascii_lower (codes "HELL")) (newest "phone" busy 0)),
    )
search_by_device_lem_example =
    search_by_device_lem ascii_lower "phone" (codes "HELL") (pos 1) 0 busy

busy-IsValid : IsValid busy
unfolding busy
busy-IsValid = run-IsValid calls (new_memory_store 2) (omega arith) (new_memory_store-IsValid 2)

busy-IsLogged : IsLogged busy
unfolding busy row_bounds
busy-IsLogged = run-IsLogged calls (new_memory_store 2) (omega arith) (new_memory_store-IsLogged 2)

step-Tracks_example : Tracks busy (step (pos 20) (Call.add (note "desk" "3" (pos 0))) busy)
unfolding busy row_bound
step-Tracks_example =
    step-Tracks (pos 20) (Call.add (note "desk" "3" (pos 0))) busy refl (omega arith)
      (omega (arith, busy_rows)) busy-IsValid busy-IsLogged

get-expire_messages_example :
    Dict.get (expire_messages (pos 60) (pos 55) busy).1.msgs 2
    ≡ (if is_due busy.expires (pos 55) 2 then none else Dict.get busy.msgs 2)
get-expire_messages_example = get-expire_messages (pos 60) (pos 55) busy 2 busy-IsValid

busy_message : Dict.get busy.msgs 2 ≡ some (record (note "desk" "7" (pos 0)) { id = 2 })
unfolding busy Dict.get Dict.put Dict.del
busy_message = refl

delete_all_by_device-covers_example :
    (Dict.get (delete_all_by_device (pos 60) "desk" busy).msgs 2 ≡ none)
    × (is_purged "desk" 2 (delete_all_by_device (pos 60) "desk" busy).dels ≡ true)
unfolding source_device
delete_all_by_device-covers_example =
    delete_all_by_device-covers (pos 60) "desk" busy 2 (record (note "desk" "7" (pos 0)) { id = 2 })
      (omega arith) busy_message (unfold of_device source_device in refl)

abbrev second_row : DeletionRecord
second_row = record (extra_row "phone" (codes "7")) { id = 2; created_at = pos 6 }

dels-logged : logged.dels ≡ record first_row { id = 1; created_at = pos 5 } ∷ second_row ∷ []
unfolding add_deletion cursor_of Dict.get
dels-logged = refl

affected-logged : length (sorted_devices (collect (pos 408000) logged).affected) ≡ 1
unfolding add_deletion cursor_of Dict.get Dict.put Dict.del collect sorted_devices
affected-logged = refl

logged-Aged : Aged logged.dels
unfolding add_deletion cursor_of Dict.get
logged-Aged = ((omega arith, tt), (tt, tt))

cleanup_deletions-reset_example :
    (deletions_by_device "phone" 1 (cleanup_deletions (pos 3000001) (pos 3000000) logged).1).reset
    ≡ true
unfolding ◌-ℤ◌ cursor_of Dict.get
cleanup_deletions-reset_example =
    cleanup_deletions-reset (pos 3000001) (pos 3000000) 1 logged
      (record first_row { id = 1; created_at = pos 5 } ∷ []) second_row [] dels-logged refl
      (omega arith) (omega arith) logged-Aged logged-IsLogged
      (rw affected-logged (unfold add_deletion in omega arith))

-- The only message of "phone" is deleted behind the back of a client with the cursor 0.
abbrev one_message : MemoryStore
one_message = run ((pos 10, Call.add (note "phone" "1" (pos 0))) ∷ []) (new_memory_store 9)

one_message_there :
    Dict.get one_message.msgs 1 ≡ some (record (note "phone" "1" (pos 0)) { id = 1 })
unfolding run Memory.add Dict.get Dict.put
one_message_there = refl

deletions_by_device-first_cursor_example :
    let t = (Memory.delete_scoped (pos 20) 1 "phone" one_message).1 in
    let first = (deletions_by_device "phone" 0 (new_memory_store 9)).cursor in
    let missed = deletions_by_device "phone" first t in
    (first ≡ 0)
    × (has_tombstone "phone" 1 t.dels ≡ true)
    × IsSilent missed
    × (events "phone" missed.cursor t.dels ≡ [])
unfolding run Memory.add row_bounds source_device deletions_by_device
deletions_by_device-first_cursor_example =
    deletions_by_device-first_cursor ((pos 10, Call.add (note "phone" "1" (pos 0))) ∷ []) (pos 20) 1
      (record (note "phone" "1" (pos 0)) { id = 1 }) (new_memory_store 9)
      (new_memory_store-IsLogged 9) refl (omega arith) (omega arith) one_message_there
