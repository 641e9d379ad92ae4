-- ===== src/Gotify/Bolt/Table.antt =====
-- What bbolt's documentation says of a bucket whose keys are numbers, or pairs of a device and a
-- number: its entries stand in the order of their keys, and each key stands once. The bytes of the keys
-- of store.go are in Gotify.Bolt.Keys.
use text.Mathlib.Text.{◌==◌ as str_eq}
use timelynotify_server.Base.{
  ℕ, String, ◌&&◌, List, [], ◌∷◌, Option, none, some, nat_eq, ltb, if◌then◌else◌,
}

module _ {ℓ} {V : Type ℓ} where
  -- Get
  unfoldable pub get : List (ℕ × V) → ℕ → Option V
  get [] k = none
  get ((j, v) ∷ t) k = let rest = get t k in if nat_eq j k then some v else rest

  -- Put, before the first key that is larger.
  unfoldable pub put : List (ℕ × V) → ℕ → V → List (ℕ × V)
  put [] k w = (k, w) ∷ []
  put ((j, v) ∷ t) k w =
      let rest = put t k w in
      if nat_eq j k then (k, w) ∷ t else if ltb k j then (k, w) ∷ (j, v) ∷ t else (j, v) ∷ rest

  -- Delete
  unfoldable pub del : List (ℕ × V) → ℕ → List (ℕ × V)
  del [] k = []
  del ((j, v) ∷ t) k = let rest = del t k in if nat_eq j k then t else (j, v) ∷ rest

  -- The keys, as a cursor meets them.
  abbrev pub keys : List (ℕ × V) → List ℕ
  keys [] = []
  keys ((k, _) ∷ t) = k ∷ keys t

-- A bucket of pairs (device, id) with empty values. It is the list of its pairs by id, so that the
-- pairs of one device stand in the order in which a cursor meets them behind the device's prefix.
unfoldable pub index_put : List (ℕ × String) → ℕ → String → List (ℕ × String)
index_put [] k d = (k, d) ∷ []
index_put ((j, e) ∷ t) k d =
    let rest = index_put t k d in
    if nat_eq j k && str_eq e d
    then (j, e) ∷ t
    else if ltb k j
    then (k, d) ∷ (j, e) ∷ t
    else (j, e) ∷ rest

unfoldable pub index_del : List (ℕ × String) → ℕ → String → List (ℕ × String)
index_del [] k d = []
index_del ((j, e) ∷ t) k d =
    let rest = index_del t k d in if nat_eq j k && str_eq e d then t else (j, e) ∷ rest

-- The ids behind a device's prefix.
unfoldable pub ids_of : List (ℕ × String) → String → List ℕ
ids_of [] d = []
ids_of ((j, e) ∷ t) d = let rest = ids_of t d in if str_eq e d then j ∷ rest else rest
