-- ===== src/Base/Dict.antt =====
-- Go maps: an association list with at most one entry for a key. Go leaves the order of a `range`
-- over a map open; the model visits the entry that was written last first.
use Prim.Native.Nat.{ℕ}
use mathlib.Core.Path.{◌≡◌, refl}
use mathlib.Core.Option.{Option, none, some}
use mathlib.Core.List.{List, [], ◌∷◌}
use native.Mathlib.Omega.{arith}
use timelynotify_server.Base.Tests.{if◌then◌else◌}
use timelynotify_server.Base.Lists.{length}
use timelynotify_server.Base.Keys.{Eq, ◌==◌}

pub record Dict {ℓ κ} (K : Type ℓ) (V : Type κ) : Type (ℓ ⊔ κ) where
  pub entries : List (K × V)

module _ {ℓ κ} {K : Type ℓ} {V : Type κ} where
  -- make(map[K]V)
  abbrev pub empty : Dict K V
  empty = record { entries = [] }

  -- len(m)
  abbrev pub size : Dict K V → ℕ
  size d = length d.entries

module _ {ℓ κ} {K : Type ℓ} {V : Type κ} ⦃e : Eq K⦄ where
  unfoldable pub value_at : K → List (K × V) → Option V
  value_at key [] = none
  value_at key ((j, v) ∷ cells) = let rest = value_at key cells in if j == key then some v else rest

  unfoldable pub drop_key : K → List (K × V) → List (K × V)
  drop_key key [] = []
  drop_key key (cell ∷ cells) =
      if cell.0 == key then drop_key key cells else cell ∷ drop_key key cells

  -- v, ok := m[k]
  unfoldable pub get : Dict K V → K → Option V
  unfolding value_at
  get d k = value_at k d.entries

  -- delete(m, k)
  unfoldable pub del : Dict K V → K → Dict K V
  unfolding drop_key
  del d k = record { entries = drop_key k d.entries }

  -- m[k] = v
  unfoldable pub put : Dict K V → K → V → Dict K V
  unfolding drop_key
  put d k v = record { entries = (k, v) ∷ drop_key k d.entries }

  value_at-drop :
      (key j : K) (cells : List (K × V))
      → value_at j (drop_key key cells) ≡ (if key == j then none else value_at j cells)
  unfolding value_at drop_key
  value_at-drop key j [] = ground arith
  value_at-drop key j ((i, v) ∷ cells) =
      ground (arith, e.same_iff i key, value_at-drop key j cells, e.same_iff key j, e.same_iff i j)

  pub get-del : (d : Dict K V) (k j : K) → get (del d k) j ≡ (if k == j then none else get d j)
  unfolding get del
  get-del d k j = value_at-drop k j d.entries

  pub get-put :
      (d : Dict K V) (k j : K) (v : V) → get (put d k v) j ≡ (if k == j then some v else get d j)
  unfolding get put
  get-put d k j v = ground (arith, value_at-drop k j d.entries)

pub get-empty {ℓ κ} :
    {K : Type ℓ} {V : Type κ} ⦃e : Eq K⦄ (k : K) → get (empty {K = K} {V = V}) k ≡ none
unfolding get
get-empty k = refl

pub ruleset dict_laws = (get-empty, get-del, get-put)
