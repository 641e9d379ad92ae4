-- ===== src/Gotify/Bolt/Mirror/Run.antt =====
-- internal/gotifycompat/store.go: a bboltStore and a memoryStore under the same calls.
use timelynotify_server.Base.{
  ℕ, ◌+◌, ◌*◌, ◌^◌, ◌≤◌, ◌<◌, String, true, List, [], ◌∷◌, Option, none, some, ℤ, ◌≡◌, refl, arith,
  Text, length, ◌>>=◌, string_key,
}
use timelynotify_server.Gotify.Model.{Message, source_device}
use timelynotify_server.Gotify.Memory.{MemoryStore, new_memory_store}
use timelynotify_server.Gotify.Memory.Run.{
  Call, step, run, step-IsValid, step-Counts, max-step, Counts,
}
use timelynotify_server.Gotify.Memory.Valid.{IsValid}
use timelynotify_server.Gotify.Memory.Logged.{IsLogged}
use timelynotify_server.Gotify.Memory.Logged.Calls.{step-Logs, row_bound}
use timelynotify_server.Gotify.Bolt
use timelynotify_server.Gotify.Bolt.{Format, BoltStore, new_bolt_store}
use timelynotify_server.Gotify.Bolt.Mirror.{Accepts, Travels, Simulates}
use timelynotify_server.Gotify.Bolt.Mirror.Calls.{add-mirrors}
use timelynotify_server.Gotify.Bolt.Mirror.Deletes.{
  delete_scoped-mirrors, delete_by_extra_id-mirrors,
}
use timelynotify_server.Gotify.Bolt.Mirror.Upserts.{upsert_by_extra_id-mirrors}

-- A call that writes or removes single messages.
pub data Write : Type 0 where
  put : Message → Write
  upsert : String → Text → Message → Write
  delete : String → ℕ → Write
  delete_extra : String → Text → Write

-- The call of a memoryStore.
abbrev pub as_call : Write → Call
as_call (put m) = Call.add m
as_call (upsert device extra_id m) = Call.upsert device extra_id m
as_call (delete device id) = Call.delete device id
as_call (delete_extra device extra_id) = Call.delete_extra device extra_id

abbrev pub as_calls : List (ℤ × Write) → List (ℤ × Call)
as_calls [] = []
as_calls ((clock, w) ∷ writes) = (clock, as_call w) ∷ as_calls writes

module _ {B : Type 0} (format : Format B) (accepts : Accepts format) where
  -- A message that is written travels, an upsert is for the device of its message, and a row of the
  -- log that names an extra id fits.
  abbrev pub Fits : Write → Type 0
  Fits (put m) = Travels format accepts m
  Fits (upsert device extra_id m) = Travels format accepts m × (source_device m ≡ device)
  Fits (delete device id) = Unit
  Fits (delete_extra device extra_id) = (format.fits device ≡ true) × (accepts.room extra_id ≡ true)

  abbrev pub AllFit : List (ℤ × Write) → Type 0
  AllFit [] = Unit
  AllFit ((_, w) ∷ writes) = Fits w × AllFit writes

abbrev without_result {ℓ κ} : {A : Type ℓ} {S : Type κ} → Option (A × S) → Option S
without_result none = none
without_result (some (_, s)) = some s

module _ {B : Type 0} (format : Format B) where
  unfoldable pub write_step : ℤ → Write → BoltStore B → Option (BoltStore B)
  write_step clock (put m) b = without_result (Bolt.add format clock m b)
  write_step clock (upsert device extra_id m) b =
      without_result (Bolt.upsert_by_extra_id format clock device extra_id m b)
  write_step clock (delete device id) b =
      without_result (Bolt.delete_scoped format clock device id b)
  write_step clock (delete_extra device extra_id) b =
      without_result (Bolt.delete_by_extra_id format clock device extra_id b)

  unfoldable pub write_run : List (ℤ × Write) → BoltStore B → Option (BoltStore B)
  unfolding write_step
  write_run [] b = some b
  write_run ((clock, w) ∷ writes) b = do b' ← write_step clock w b; write_run writes b'

  pub new-Simulates :
      (accepts : Accepts format) (max : ℕ)
      → Simulates format accepts (new_bolt_store max) (new_memory_store max)
  new-Simulates accepts max = (
    record {
      messages = record { ids = refl; reads = tt; index = refl };
      log = record { rows = tt; index = refl };
      seq = refl;
      max = refl;
      del_seq = refl;
      del_msg = refl;
    },
    refl,
  )

  module _ (accepts : Accepts format) where
    step-mirrors :
        (clock : ℤ) (w : Write) (b : BoltStore B) (s : MemoryStore)
        → Simulates format accepts b s
        → IsValid s
        → IsLogged s
        → Fits format accepts w
        → s.seq + 1 < 2 ^ 64
        → s.del_seq + 2 < 2 ^ 64
        → s.max + 1 < 2 ^ 64
        → (b' : BoltStore B) × (write_step clock w b ≡ some b')
          × Simulates format accepts b' (step clock (as_call w) s)
    unfolding write_step step
    step-mirrors clock (put m) b s h valid v own room room_log small =
        let (b', done, alike) =
          add-mirrors format accepts b s h valid v clock m own room (omega arith) small in
        (b', rw done refl, alike)
    step-mirrors clock (upsert device extra_id m) b s h valid v own room room_log small =
        let (b', done, alike) =
          upsert_by_extra_id-mirrors format accepts b s h valid clock device extra_id m v own.0
            own.1 room (omega arith) small in
        (b', rw done refl, alike)
    step-mirrors clock (delete device id) b s h valid v own room room_log small =
        let (b', done, alike) =
          delete_scoped-mirrors format accepts b s h valid v clock device id (omega arith) in
        (b', rw done refl, alike)
    step-mirrors clock (delete_extra device extra_id) b s h valid v own room room_log small =
        let (b', done, alike) =
          delete_by_extra_id-mirrors format accepts b s h valid v clock device extra_id own.0 own.1
            room_log in
        (b', rw done refl, alike)

    row_bound-le : (w : Write) (s : MemoryStore) → row_bound (as_call w) s ≤ 2
    unfolding row_bound
    row_bound-le (put m) s = omega arith
    row_bound-le (upsert device extra_id m) s = omega arith
    row_bound-le (delete device id) s = omega arith
    row_bound-le (delete_extra device extra_id) s = omega arith

    pub run-mirrors :
        (writes : List (ℤ × Write)) (b : BoltStore B) (s : MemoryStore)
        → Simulates format accepts b s
        → IsValid s
        → IsLogged s
        → AllFit format accepts writes
        → s.seq + length writes < 2 ^ 64
        → s.del_seq + 2 * length writes < 2 ^ 64
        → s.max + 1 < 2 ^ 64
        → (b' : BoltStore B) × (write_run writes b ≡ some b')
          × Simulates format accepts b' (run (as_calls writes) s)
          × IsLogged (run (as_calls writes) s)
    unfolding write_run run Counts
    run-mirrors [] b s h valid v own room room_log small = (b, refl, h, v)
    run-mirrors ((clock, w) ∷ writes) b s h valid v own room room_log small =
        let c = as_call w in
        let (b1, done, alike) =
          step-mirrors clock w b s h valid v own.0 (omega arith) (omega arith) small in
        let few = row_bound-le w s in
        let (logged, more) = step-Logs clock c s (omega arith) v in
        let counts = step-Counts clock c s (omega arith) in
        let (b2, rest, result, final) =
          run-mirrors writes b1 (step clock c s) alike (step-IsValid clock c s (omega arith) valid)
            logged own.1 (omega arith) (omega arith) (omega (arith, max-step clock c s)) in
        (b2, rw (done, rest) refl, result, final)
