-- ===== src/Gotify/Bolt/Reads.antt =====
-- internal/gotifycompat/store.go, the reads of bboltStore: none is a row that cannot be decoded, or the
-- panic of a page whose limit is the largest int.
use mathlib.Core.List.{reverse}
use timelynotify_server.Base.{
  ℕ, zero, suc, ◌+◌, String, Bool, true, false, ◌&&◌, List, [], ◌∷◌, ◌++◌, Option, none, some, ℤ,
  pos, negsuc, is_zero_ℤ, Text, ltb, leb, if◌then◌else◌, length, map, ◌>>=◌,
}
use timelynotify_server.Gotify.Model.{Message}
use timelynotify_server.Gotify.Memory.{of_device}
use timelynotify_server.Gotify.Memory.Reads.{within, before, message_matches, page_of, max_int}
use timelynotify_server.Gotify.Bolt.{Format, BoltStore, with_id}
use timelynotify_server.Gotify.Bolt.Table

module _ {B : Type 0} (format : Format B) where
  -- The walk from the newest row, until there are as many as asked for.
  unfoldable pub recent_loop : String → ℤ → ℕ → List (ℕ × B) → List Message → Option (List Message)
  recent_loop device limit since [] out = some out
  recent_loop device limit since ((id, raw) ∷ t) out =
      let skipped = recent_loop device limit since t out in
      let visited = elim (format.decode raw) as (λ _. Option (List Message)) [
        | none ↦ none
        | some m ↦
            recent_loop device limit since t
              (if of_device device m then out ++ with_id m id ∷ [] else out)
      ] in
      if within limit (length out) then (if before since id then visited else skipped) else some out

  -- RecentByDevice
  unfoldable pub recent_by_device : String → ℤ → ℕ → BoltStore B → Option (List Message)
  unfolding recent_loop
  recent_by_device device limit since s =
      if is_zero_ℤ limit then some [] else recent_loop device limit since (reverse s.msgs) []

  -- RecentPageByDevice
  unfoldable pub recent_page_by_device : String → ℤ → ℕ → BoltStore B → Option (List Message × Bool)
  unfolding recent_loop
  recent_page_by_device device (negsuc _) since s = some ([], false)
  recent_page_by_device device (pos zero) since s = some ([], false)
  recent_page_by_device device (pos (suc n)) since s =
      if ltb (suc n) max_int
      then (do
        out ← recent_loop device (pos (suc n + 1)) since (reverse s.msgs) []
        some (page_of (suc n) out))
      else none

  -- The walk behind the device's prefix, until there is one row more than the page holds.
  unfoldable pub after_loop : List (ℕ × B) → ℕ → ℕ → List ℕ → List Message → Option (List Message)
  after_loop msgs after limit [] out = some out
  after_loop msgs after limit (id ∷ ids) out =
      let skipped = after_loop msgs after limit ids out in
      let visited = elim (Table.get msgs id) as (λ _. Option (List Message)) [
        | none ↦ after_loop msgs after limit ids out
        | some raw ↦ elim (format.decode raw) as (λ _. Option (List Message)) [
          | none ↦ none
          | some m ↦ after_loop msgs after limit ids (out ++ with_id m id ∷ [])
        ]
      ] in
      if ltb (length out) (limit + 1) then (if leb id after then skipped else visited) else some out

  -- AfterByDevice; the cursor starts behind the device's prefix.
  unfoldable pub after_by_device : String → ℕ → ℤ → BoltStore B → Option (List Message × Bool)
  unfolding after_loop
  after_by_device device after (negsuc _) s = some ([], false)
  after_by_device device after (pos zero) s = some ([], false)
  after_by_device device after (pos (suc n)) s =
      if ltb (suc n) max_int
      then (do
        out ← after_loop s.msgs after (suc n) (Table.ids_of s.dev_msgs device) []
        some (page_of (suc n) out))
      else none

  module _ (lower : ℕ → ℕ) where
    unfoldable pub search_loop :
        String → Text → ℤ → ℕ → List (ℕ × B) → List Message × ℕ → Option (List Message × ℕ)
    search_loop device keyword limit since [] (out, total) = some (out, total)
    search_loop device keyword limit since ((id, raw) ∷ t) (out, total) =
        let skipped = search_loop device keyword limit since t (out, total) in
        let visited = elim (format.decode raw) as (λ _. Option (List Message × ℕ)) [
          | none ↦ none
          | some m ↦
              let fits = of_device device m && message_matches lower m keyword in
              search_loop device keyword limit since t (
                if fits && within limit (length out) then out ++ with_id m id ∷ [] else out,
                if fits then total + 1 else total,
              )
        ] in
        if before since id then visited else skipped

    -- SearchByDevice
    unfoldable pub search_by_device :
        String → Text → ℤ → ℕ → BoltStore B → Option (List Message × ℕ)
    unfolding search_loop
    search_by_device device keyword limit since s =
        search_loop device (map lower keyword) limit since (reverse s.msgs) ([], 0)

    module _ {ℓ} {A : Type ℓ} (fn : Message → A → A × Bool) where
      -- The walk of an export: the number of messages, what `fn` has made of them, and whether a row
      -- could not be decoded or `fn` failed.
      unfoldable pub for_each_loop : String → Text → ℕ → List (ℕ × B) → ℕ → A → ℕ × A × Bool
      for_each_loop device keyword since [] total a = (total, a, false)
      for_each_loop device keyword since ((id, raw) ∷ t) total a =
          let skipped = for_each_loop device keyword since t total a in
          let visited = elim (format.decode raw) as (λ _. ℕ × A × Bool) [
            | none ↦ (total, a, true)
            | some m ↦
                elim (of_device device m && message_matches lower m keyword)
                  as (λ _. ℕ × A × Bool) [
                    | false ↦ for_each_loop device keyword since t total a
                    | true ↦
                        let (a', failed) = fn (with_id m id) a in
                        elim failed as (λ _. ℕ × A × Bool) [
                          | true ↦ (total + 1, a', true)
                          | false ↦ for_each_loop device keyword since t (total + 1) a'
                        ]
                  ]
          ] in
          if before since id then visited else skipped

      -- ForEachByDevice
      unfoldable pub for_each_by_device : String → Text → ℕ → BoltStore B → A → ℕ × A × Bool
      unfolding for_each_loop
      for_each_by_device device keyword since s a =
          for_each_loop device (map lower keyword) since (reverse s.msgs) 0 a
