-- ===== src/Gotify/Bolt/Entries.antt =====
-- The buckets of internal/gotifycompat/store.go under the writes of bboltStore: an entry behind all
-- others, and the removal of one.
use timelynotify_server.Base.{
  ℕ, ◌≤◌, ◌<◌, String, true, false, List, [], ◌∷◌, ◌++◌, ◌≡◌, refl, ap, arith, All, map, ltb,
  nat_eq, Bool-cases, inl, inr, ◌==◌, ==_refl, string_key, nat_eq→≡,
}
use timelynotify_server.Base.Ascending.{Ascending, remove_id}
use timelynotify_server.Gotify.Bolt.Table
use timelynotify_server.Gotify.Bolt.Table.{keys}

-- Every key is below `k`.
abbrev pub Below : ℕ → List ℕ → Type 0
Below k = All (λ j. j < k)

pub Below-le : (b k : ℕ) (xs : List ℕ) → b < k → All (λ x. x ≤ b) xs → Below k xs
Below-le b k [] h u = tt
Below-le b k (x ∷ xs) h u = (omega arith, Below-le b k xs h u.1)

module _ {ℓ} {V : Type ℓ} where
  pub put_last :
      (t : List (ℕ × V)) (k : ℕ) (v : V) → Below k (keys t) → Table.put t k v ≡ t ++ (k, v) ∷ []
  unfolding Table.put
  put_last [] k v h = refl
  put_last ((j, w) ∷ t) k v h =
      let other : nat_eq j k ≡ false = ground arith in
      let behind : ltb k j ≡ false = ground arith in
      rw (other, behind) (ap (◌∷◌ (j, w)) (put_last t k v h.1))

  pub keys-append : (t : List (ℕ × V)) (k : ℕ) (v : V) → keys (t ++ (k, v) ∷ []) ≡ keys t ++ k ∷ []
  keys-append [] k v = refl
  keys-append ((j, _) ∷ t) k v = ap (◌∷◌ j) (keys-append t k v)

  pub keys-del : (t : List (ℕ × V)) (k : ℕ) → keys (Table.del t k) ≡ remove_id k (keys t)
  unfolding Table.del remove_id
  keys-del [] k = refl
  keys-del ((j, v) ∷ t) k = elim (Bool-cases (nat_eq j k)) [
    | inl same ↦ rw same refl
    | inr other ↦ rw other (ap (◌∷◌ j) (keys-del t k))
  ]

  pub All-del {κ} :
      (P : ℕ × V → Type κ) (t : List (ℕ × V)) (k : ℕ) → All P t → All P (Table.del t k)
  unfolding Table.del
  All-del P [] k h = tt
  All-del P ((j, v) ∷ t) k h = elim (Bool-cases (nat_eq j k)) [
    | inl same ↦ rw same h.1
    | inr other ↦ rw other (h.0, All-del P t k h.1)
  ]

  -- An index whose entries follow from the ids loses the entry that the bucket loses.
  pub index_del-map :
      (owner : ℕ → String) (t : List (ℕ × V)) (k : ℕ)
      → Table.index_del (map (λ p. (p.0, owner p.0)) t) k (owner k)
        ≡ map (λ p. (p.0, owner p.0)) (Table.del t k)
  unfolding Table.index_del Table.del
  index_del-map owner [] k = refl
  index_del-map owner ((j, v) ∷ t) k = elim (Bool-cases (nat_eq j k)) [
    | inl same ↦
        let owned : (owner j == owner k) ≡ true = rw (nat_eq→≡ j k same) (==_refl (owner k)) in
        rw (same, owned) refl
    | inr other ↦ rw other (ap (◌∷◌ (j, owner j)) (index_del-map owner t k))
  ]

module _ {ℓ} {A : Type ℓ} where
  pub index_put_last :
      (f : A → ℕ × String) (t : List A) (k : ℕ) (device : String)
      → All (λ a. (f a).0 < k) t
      → Table.index_put (map f t) k device ≡ map f t ++ (k, device) ∷ []
  unfolding Table.index_put
  index_put_last f [] k device h = refl
  index_put_last f (a ∷ t) k device h =
      let other : nat_eq (f a).0 k ≡ false = ground arith in
      let behind : ltb k (f a).0 ≡ false = ground arith in
      rw (other, behind) (ap (◌∷◌ (f a)) (index_put_last f t k device h.1))

above-ne : (id lo : ℕ) (xs : List ℕ) → id ≤ lo → Ascending lo xs → All (λ j. nat_eq id j ≡ false) xs
above-ne id lo [] h a = tt
above-ne id lo (x ∷ xs) h a = (ground arith, above-ne id x xs (omega arith) a.1)

-- Once an id is removed from an ascending list, it does not occur.
pub remove_id-ne :
    (id lo : ℕ) (xs : List ℕ) → Ascending lo xs → All (λ j. nat_eq id j ≡ false) (remove_id id xs)
unfolding remove_id
remove_id-ne id lo [] a = tt
remove_id-ne id lo (x ∷ xs) a = elim (Bool-cases (nat_eq x id)) [
  | inl same ↦ rw same (above-ne id x xs (ground arith) a.1)
  | inr other ↦ rw other (ground arith, remove_id-ne id x xs a.1)
]
