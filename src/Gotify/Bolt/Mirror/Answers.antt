-- ===== src/Gotify/Bolt/Mirror/Answers.antt =====
-- internal/gotifycompat/store.go: what a client reads from a bboltStore and from a memoryStore.
use timelynotify_server.Base.{
  ℕ, ◌+◌, ◌*◌, ◌^◌, ◌<◌, String, Bool, false, List, Option, none, some, ℤ, ◌≡◌, refl, ap, ◌∙◌, map,
  arith, Text, length, ◌>>=◌, ◌==◌, string_key,
}
use timelynotify_server.Gotify.Model.{Message, DeletionsPage}
use timelynotify_server.Gotify.Memory.{MemoryStore, new_memory_store}
use timelynotify_server.Gotify.Memory.Reads
use timelynotify_server.Gotify.Memory.Log
use timelynotify_server.Gotify.Memory.Run.{run}
use timelynotify_server.Gotify.Memory.Valid.{new_memory_store-IsValid}
use timelynotify_server.Gotify.Memory.Logged.{IsLogged, new_memory_store-IsLogged}
use timelynotify_server.Gotify.Bolt.{Format, BoltStore, new_bolt_store}
use timelynotify_server.Gotify.Bolt.Reads as BoltReads
use timelynotify_server.Gotify.Bolt.Log as BoltLog
use timelynotify_server.Gotify.Bolt.Mirror.{Accepts, Mirrors, seen}
use timelynotify_server.Gotify.Bolt.Mirror.Run.{
  Write, as_calls, AllFit, write_run, new-Simulates, run-mirrors,
}
use timelynotify_server.Gotify.Bolt.Mirror.Reads.{
  seen_rows, seen_page, recent_by_device-mirrors, recent_page_by_device-mirrors,
  search_by_device-mirrors,
}
use timelynotify_server.Gotify.Bolt.Mirror.After.{after_by_device-mirrors}
use timelynotify_server.Gotify.Bolt.Mirror.Log.{deletions_by_device-mirrors}

-- A read, with the device first.
pub data Query : Type 0 where
  recent : String → ℤ → ℕ → Query
  recent_page : String → ℤ → ℕ → Query
  after : String → ℕ → ℤ → Query
  search : String → Text → ℤ → ℕ → Query
  deletions : String → ℕ → Query

pub data Answer : Type 0 where
  messages : List Message → Answer
  page : List Message × Bool → Answer
  matches : List Message × ℕ → Answer
  deletions_page : DeletionsPage → Answer

-- The replay by the index asks for a device, as the route does.
abbrev pub IsNamed : Query → Type 0
IsNamed (after device id limit) = (device == "") ≡ false
IsNamed _ = Unit

abbrev answered {ℓ} : {A : Type ℓ} → (A → Answer) → Option A → Option Answer
answered f none = none
answered f (some a) = some (f a)

module _ {B : Type 0} (format : Format B) (accepts : Accepts format) where
  -- What is left of an answer whose messages were written and read.
  abbrev pub seen_answer : Option Answer → Option Answer
  seen_answer none = none
  seen_answer (some (messages rows)) = some (messages (map (seen format accepts) rows))
  seen_answer (some (page p)) = some (page (seen_rows format accepts p))
  seen_answer (some (matches p)) = some (matches (seen_rows format accepts p))
  seen_answer (some (deletions_page p)) = some (deletions_page p)

  seen_answer-page :
      (p : Option (List Message × Bool))
      → answered page (seen_page format accepts p) ≡ seen_answer (answered page p)
  seen_answer-page none = refl
  seen_answer-page (some p) = refl

module _ (lower : ℕ → ℕ) where
  unfoldable pub memory_answer : Query → MemoryStore → Option Answer
  memory_answer (recent device limit since) s =
      some (messages (Reads.recent_by_device device limit since s))
  memory_answer (recent_page device limit since) s =
      answered page (Reads.recent_page_by_device device limit since s)
  memory_answer (after device id limit) s = answered page (Reads.after_by_device device id limit s)
  memory_answer (search device keyword limit since) s =
      some (matches (Reads.search_by_device lower device keyword limit since s))
  memory_answer (deletions device since) s =
      some (deletions_page (Log.deletions_by_device device since s))

  module _ {B : Type 0} (format : Format B) where
    unfoldable pub bolt_answer : Query → BoltStore B → Option Answer
    bolt_answer (recent device limit since) b =
        answered messages (BoltReads.recent_by_device format device limit since b)
    bolt_answer (recent_page device limit since) b =
        answered page (BoltReads.recent_page_by_device format device limit since b)
    bolt_answer (after device id limit) b =
        answered page (BoltReads.after_by_device format device id limit b)
    bolt_answer (search device keyword limit since) b =
        answered matches (BoltReads.search_by_device format lower device keyword limit since b)
    bolt_answer (deletions device since) b =
        answered deletions_page (BoltLog.deletions_by_device format device since b)

    answer-Mirrors :
        (accepts : Accepts format) (q : Query) (b : BoltStore B) (s : MemoryStore)
        → Mirrors format accepts b s
        → IsLogged s
        → IsNamed q
        → bolt_answer q b ≡ seen_answer format accepts (memory_answer q s)
    unfolding bolt_answer memory_answer
    answer-Mirrors accepts (recent device limit since) b s h v named =
        ap (answered messages)
          (recent_by_device-mirrors format accepts b s h.messages device limit since)
    answer-Mirrors accepts (recent_page device limit since) b s h v named =
        ap (answered page)
          (recent_page_by_device-mirrors format accepts b s h.messages device limit since)
        ∙ seen_answer-page format accepts (Reads.recent_page_by_device device limit since s)
    answer-Mirrors accepts (after device id limit) b s h v named =
        ap (answered page)
          (after_by_device-mirrors format accepts b s h.messages device id limit named)
        ∙ seen_answer-page format accepts (Reads.after_by_device device id limit s)
    answer-Mirrors accepts (search device keyword limit since) b s h v named =
        ap (answered matches)
          (search_by_device-mirrors format accepts b s h.messages lower device keyword limit since)
    answer-Mirrors accepts (deletions device since) b s h v named =
        ap (answered deletions_page) (deletions_by_device-mirrors format b s h.log v device since)

    -- The stores answer alike: after the same calls of Add, UpsertByExtraID, DeleteByDevice and
    -- DeleteByExtraID on two new stores of one capacity, which all go through, RecentByDevice,
    -- RecentPageByDevice, AfterByDevice, SearchByDevice and DeletionsByDevice of the bboltStore return
    -- what the memoryStore returns, but for what JSON drops of a message: its DeviceKey, its ExpiresAt
    -- and the types of its extras. The bboltStore fails only where the memoryStore panics, at a page
    -- limit of math.MaxInt. The messages can be encoded, their devices fit into a key, and they keep
    -- their device and their extras.id without what JSON drops; rows of the log that fit read back as
    -- they were; an upsert is for the device of its message, a deletion by extras.id fits, a replay
    -- names a device, and the uint64 counters have room for the calls.
    pub write_run-answer :
        (accepts : Accepts format) (writes : List (ℤ × Write)) (max : ℕ) (q : Query)
        → AllFit format accepts writes
        → IsNamed q
        → 2 * length writes < 2 ^ 64
        → max + 1 < 2 ^ 64
        → (write_run format writes (new_bolt_store max) >>= bolt_answer q)
          ≡ seen_answer format accepts
              (memory_answer q (run (as_calls writes) (new_memory_store max)))
    write_run-answer accepts writes max q own named room small =
        let (b, done, alike, logged) =
          run-mirrors format accepts writes (new_bolt_store max) (new_memory_store max)
            (new-Simulates format accepts max) (new_memory_store-IsValid max)
            (new_memory_store-IsLogged max) own (omega arith) (omega arith) small in
        rw done (
          answer-Mirrors accepts q b (run (as_calls writes) (new_memory_store max)) alike.0 logged
            named)
