-- ===== src/Gotify/Bolt/Keys.antt =====
-- internal/gotifycompat/store.go: the keys of the buckets as bytes, with PutUint16, PutUint64 and Uint64
-- of encoding/binary in big-endian order. A device is the list of its bytes.
pub mod Order
use mathlib.Core.List.{append-nil}
use timelynotify_server.Base.{
  ℕ, zero, suc, ◌+◌, ◌*◌, ◌/◌, ◌%◌, ◌^◌, ◌<◌, ◌≤◌, Bool, true, false, ◌&&◌, ◌||◌, List, [], ◌∷◌,
  ◌++◌, ◌≡◌, refl, sym, ap, ◌∙◌, arith, nat_eq, ltb, nat_eq→≡, if◌then◌else◌, length, length-append,
  drop, ◌↔◌, ◌≢◌, Bool-cases, inl, inr,
}

-- The last `k` bytes of a number, the largest first.
unfoldable pub big_endian : ℕ → ℕ → List ℕ
big_endian zero v = []
big_endian (suc k) v = big_endian k (v / 256) ++ v % 256 ∷ []

-- The number that bytes spell.
unfoldable pub spelled : ℕ → List ℕ → ℕ
spelled n [] = n
spelled n (b ∷ bs) = spelled (n * 256 + b) bs

-- uint64Bytes
unfoldable pub uint64_bytes : ℕ → List ℕ
uint64_bytes v = big_endian 8 v

-- bytesUint64
unfoldable pub bytes_uint64 : List ℕ → ℕ
bytes_uint64 bs = if nat_eq (length bs) 8 then spelled 0 bs else 0

-- devicePrefix
unfoldable pub device_prefix : List ℕ → List ℕ
device_prefix device = big_endian 2 (length device % 2 ^ 16) ++ device

-- deviceScopedKey
unfoldable pub device_scoped_key : List ℕ → ℕ → List ℕ
device_scoped_key device id = big_endian 2 (length device % 2 ^ 16) ++ device ++ big_endian 8 id

-- scopedID
unfoldable pub scoped_id : List ℕ → ℕ → ℕ
unfolding bytes_uint64
scoped_id k prefix_len =
    if nat_eq (length k) (prefix_len + 8) then bytes_uint64 (drop prefix_len k) else 0

-- bytes.HasPrefix
unfoldable pub has_prefix : List ℕ → List ℕ → Bool
has_prefix bs [] = true
has_prefix [] (p ∷ ps) = false
has_prefix (b ∷ bs) (p ∷ ps) = let rest = has_prefix bs ps in if nat_eq b p then rest else false

-- bytes.Compare, as bbolt orders keys: the first comes before the second.
unfoldable pub precedes : List ℕ → List ℕ → Bool
precedes bs [] = false
precedes [] (c ∷ cs) = true
precedes (b ∷ bs) (c ∷ cs) = let rest = precedes bs cs in ltb b c || (nat_eq b c && rest)

pub length-big_endian : (k v : ℕ) → length (big_endian k v) ≡ k
unfolding big_endian
length-big_endian zero v = refl
length-big_endian (suc k) v =
    omega
      (arith, length-append (big_endian k (v / 256)) (v % 256 ∷ []), length-big_endian k (v / 256))

spelled-append : (n b : ℕ) (bs : List ℕ) → spelled n (bs ++ b ∷ []) ≡ spelled n bs * 256 + b
unfolding spelled
spelled-append n b [] = refl
spelled-append n b (c ∷ bs) = spelled-append (n * 256 + c) b bs

spelled-big_endian : (k v : ℕ) → v < 256 ^ k → spelled 0 (big_endian k v) ≡ v
unfolding spelled big_endian
spelled-big_endian zero v h = omega arith
spelled-big_endian (suc k) v h =
    let rest = spelled-big_endian k (v / 256) (omega arith) in
    omega (arith, rest, spelled-append 0 (v % 256) (big_endian k (v / 256)))

-- bytesUint64 gives back the number that uint64Bytes wrote.
pub bytes_uint64-bytes : (v : ℕ) → v < 2 ^ 64 → bytes_uint64 (uint64_bytes v) ≡ v
unfolding bytes_uint64 uint64_bytes
bytes_uint64-bytes v h =
    let eight : nat_eq (length (big_endian 8 v)) 8 ≡ true = ground (arith, length-big_endian 8 v) in
    rw eight (spelled-big_endian 8 v (omega arith))

-- Prefixes of one length are compared first.
has_prefix-same :
    (cs bs xs ys : List ℕ)
    → length cs ≡ length bs
    → has_prefix (cs ++ xs) (bs ++ ys) ≡ true
    → (cs ≡ bs) × (has_prefix xs ys ≡ true)
unfolding has_prefix
has_prefix-same [] [] xs ys e h = (refl, h)
has_prefix-same [] (b ∷ bs) xs ys e h = absurd (omega arith)
has_prefix-same (a ∷ cs) [] xs ys e h = absurd (omega arith)
has_prefix-same (a ∷ cs) (b ∷ bs) xs ys e h =
    let same : nat_eq a b ≡ true = ground arith in
    let rest : has_prefix (cs ++ xs) (bs ++ ys) ≡ true = ground arith in
    let (tail, more) = has_prefix-same cs bs xs ys (omega arith) rest in
    (rw (nat_eq→≡ a b same, tail) refl, more)

has_prefix-append : (as_ xs : List ℕ) → has_prefix (as_ ++ xs) as_ ≡ true
unfolding has_prefix
has_prefix-append [] [] = refl
has_prefix-append [] (x ∷ xs) = refl
has_prefix-append (a ∷ as_) xs =
    let same : nat_eq a a ≡ true = ground arith in rw same (has_prefix-append as_ xs)

module _ {ℓ} {A : Type ℓ} where
  append_assoc : (xs ys zs : List A) → (xs ++ ys) ++ zs ≡ xs ++ (ys ++ zs)
  append_assoc [] ys zs = refl
  append_assoc (x ∷ xs) ys zs = ap (◌∷◌ x) (append_assoc xs ys zs)

  drop-append : (xs ys : List A) → drop (length xs) (xs ++ ys) ≡ ys
  drop-append [] ys = refl
  drop-append (x ∷ xs) ys = drop-append xs ys

-- Numbers below 256 ^ k with the same bytes are the same.
pub big_endian-injective :
    (k v w : ℕ) → v < 256 ^ k → w < 256 ^ k → big_endian k v ≡ big_endian k w → v ≡ w
big_endian-injective k v w h i e =
    sym (spelled-big_endian k v h) ∙ ap (spelled 0) e ∙ spelled-big_endian k w i

-- A key stands behind the prefix of a device exactly if it is a key of the device: no key is met by
-- the walk of another device, even if the name of one begins with the name of the other. The names are
-- shorter than 2 ^ 16 bytes.
pub has_prefix-key :
    (device other : List ℕ) (id : ℕ)
    → length device < 2 ^ 16
    → length other < 2 ^ 16
    → (has_prefix (device_scoped_key device id) (device_prefix other) ≡ true) ↔ (device ≡ other)
unfolding device_scoped_key device_prefix
has_prefix-key device other id small few = (
  λ h.
      let (heads, rest) =
        has_prefix-same (big_endian 2 (length device % 2 ^ 16))
          (big_endian 2 (length other % 2 ^ 16)) (device ++ big_endian 8 id) other
          (length-big_endian 2 (length device % 2 ^ 16)
            ∙ sym (length-big_endian 2 (length other % 2 ^ 16)))
          (rw⁻¹ (append_assoc (big_endian 2 (length device % 2 ^ 16)) device (big_endian 8 id))
            h) in
      let lengths =
        big_endian-injective 2 (length device % 2 ^ 16) (length other % 2 ^ 16) (omega arith)
          (omega arith) heads in
      let behind : has_prefix (device ++ big_endian 8 id) (other ++ []) ≡ true =
        rw append-nil rest in
      (has_prefix-same device other (big_endian 8 id) [] (omega arith) behind).0,
  λ e. rw e (has_prefix-append (big_endian 2 (length other % 2 ^ 16) ++ other) (big_endian 8 id)),
)

-- scopedID gives back the id of a key behind its prefix.
pub scoped_id-key :
    (device : List ℕ) (id : ℕ)
    → id < 2 ^ 64
    → scoped_id (device_scoped_key device id) (length (device_prefix device)) ≡ id
unfolding scoped_id device_scoped_key device_prefix uint64_bytes
scoped_id-key device id h =
    let head = big_endian 2 (length device % 2 ^ 16) ++ device in
    let eight : nat_eq (length (head ++ big_endian 8 id)) (length head + 8) ≡ true =
      ground (arith, length-append head (big_endian 8 id), length-big_endian 8 id) in
    rw (eight, drop-append head (big_endian 8 id)) (bytes_uint64-bytes id h)
