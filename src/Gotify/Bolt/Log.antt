-- ===== src/Gotify/Bolt/Log.antt =====
-- internal/gotifycompat/store.go, bboltStore.DeletionsByDevice: a page of the deletion log, by the
-- index of the device.
use timelynotify_server.Base.{
  ℕ, ◌+◌, String, true, false, List, [], ◌∷◌, Option, none, some, nat_eq, ltb, leb, if◌then◌else◌,
}
use timelynotify_server.Gotify.Model.{DeletionsPage, page_limit}
use timelynotify_server.Gotify.Memory.Log.{is_reset, empty_page, project}
use timelynotify_server.Gotify.Bolt.{Format, BoltStore}
use timelynotify_server.Gotify.Bolt.Table

-- The first and the last cursor behind the prefix.
abbrev pub first_of : List ℕ → Option ℕ
first_of [] = none
first_of (id ∷ ids) = some id

abbrev pub last_of : ℕ → List ℕ → ℕ
last_of n [] = n
last_of n (id ∷ ids) = last_of id ids

module _ {B : Type 0} (format : Format B) where
  -- The walk behind the cursor: the page so far, the number of its events and the last of them.
  unfoldable pub page_loop :
      List (ℕ × B) → ℕ → List ℕ → DeletionsPage → ℕ → ℕ → Option DeletionsPage
  page_loop dels since [] page projected last = some page
  page_loop dels since (id ∷ ids) page projected last =
      let skipped = page_loop dels since ids page projected last in
      let shown = elim (Table.get dels id) as (λ _. Option DeletionsPage) [
        | none ↦ page_loop dels since ids page projected last
        | some raw ↦ elim (format.decode_row raw) as (λ _. Option DeletionsPage) [
          | none ↦ none
          | some r ↦ elim (is_reset r.kind) as (λ _. Option DeletionsPage) [
            | true ↦ page_loop dels since ids page projected last
            | false ↦ elim (nat_eq projected page_limit) as (λ _. Option DeletionsPage) [
              | true ↦ some (record page { has_more = true; cursor = last })
              | false ↦ page_loop dels since ids (project r page) (projected + 1) id
            ]
          ]
        ]
      ] in
      if leb id since then skipped else shown

  -- DeletionsByDevice
  unfoldable pub deletions_by_device : String → ℕ → BoltStore B → Option DeletionsPage
  unfolding page_loop
  deletions_by_device device since s =
      let ids = Table.ids_of s.del_dev device in
      elim (first_of ids) as (λ _. Option DeletionsPage) [
        | none ↦ some empty_page
        | some min ↦
            let page : DeletionsPage = record empty_page { cursor = last_of 0 ids } in
            if nat_eq since 0
            then some page
            else if ltb since min
            then some (record page { reset = true })
            else page_loop s.dels since ids page 0 0
      ]
