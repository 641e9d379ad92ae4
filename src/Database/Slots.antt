-- ===== src/Database/Slots.antt =====
-- database/bbolt.go: the names under which the bucket keeps the records of a device key.
use timelynotify_server.Base.{
  Bool, true, false, ◌&&◌, not, [], ◌∷◌, ◌++◌, Option, none, some, Text, codes, text_key, nat_eq,
  if◌then◌else◌, ◌==◌, ◌≡◌, refl, arith,
}
use timelynotify_server.Base.Strings.{text_eq}
use timelynotify_server.Database.{ios, harmony}

-- infoStorageKey
unfoldable pub info_storage_key : Text → Text → Text
info_storage_key key platform = codes "info:" ++ key ++ b':' ∷ platform

abbrev pub legacy_key : Text → Text
legacy_key key = codes "info:" ++ key

-- strings.HasSuffix, as the text before the suffix.
unfoldable pub cut_suffix : Text → Text → Option Text
cut_suffix [] suffix = if text_eq [] suffix then some [] else none
cut_suffix (c ∷ s) suffix =
    let rest = cut_suffix s suffix in
    if text_eq (c ∷ s) suffix then some [] else elim rest [ none ↦ none | some t ↦ some (c ∷ t) ]

-- strings.HasPrefix, as the text after the prefix.
unfoldable pub cut_prefix : Text → Text → Option Text
cut_prefix s [] = some s
cut_prefix [] (b ∷ p) = none
cut_prefix (a ∷ s) (b ∷ p) = let rest = cut_prefix s p in if nat_eq a b then rest else none

-- parseInfoKey
unfoldable pub parse_info_key : Text → Option (Text × Text)
unfolding cut_prefix cut_suffix
parse_info_key bucket_key = elim (cut_prefix bucket_key (codes "info:")) [
  | none ↦ none
  | some rest ↦ elim (cut_suffix rest (codes ":ios")) [
    | some key ↦ some (key, ios)
    | none ↦ elim (cut_suffix rest (codes ":harmony")) [
      | some key ↦ some (key, harmony)
      | none ↦ some (rest, ios)
    ]
  ]
]

-- A device key without a colon.
abbrev pub is_plain : Text → Bool
is_plain [] = true
is_plain (c ∷ s) = not (nat_eq c b':') && is_plain s

-- Names of plain keys agree only where keys and platforms do.
pub colon-join :
    (k j p q : Text)
    → is_plain k ≡ true
    → is_plain j ≡ true
    → ((k ++ b':' ∷ p) == (j ++ b':' ∷ q)) ≡ ((k == j) && (p == q))
colon-join [] [] p q hk hj = ground arith
colon-join [] (b ∷ j) p q hk hj = ground arith
colon-join (a ∷ k) [] p q hk hj = ground arith
colon-join (a ∷ k) (b ∷ j) p q hk hj = ground (arith, colon-join k j p q)

pub colon-plain : (k j p : Text) → is_plain j ≡ true → ((k ++ b':' ∷ p) == j) ≡ false
colon-plain [] [] p hj = refl
colon-plain [] (b ∷ j) p hj = ground arith
colon-plain (a ∷ k) [] p hj = refl
colon-plain (a ∷ k) (b ∷ j) p hj = ground (arith, colon-plain k j p)

pub plain-colon : (k j p : Text) → is_plain j ≡ true → (j == (k ++ b':' ∷ p)) ≡ false
plain-colon [] [] p hj = refl
plain-colon [] (b ∷ j) p hj = ground arith
plain-colon (a ∷ k) [] p hj = refl
plain-colon (a ∷ k) (b ∷ j) p hj = ground (arith, plain-colon k j p)

module _ (k j p q : Text) (hk : is_plain k ≡ true) (hj : is_plain j ≡ true) where
  pub info-info : (info_storage_key k p == info_storage_key j q) ≡ ((k == j) && (p == q))
  unfolding info_storage_key
  info-info = colon-join k j p q hk hj

  pub info-legacy : (info_storage_key k p == legacy_key j) ≡ false
  unfolding info_storage_key
  info-legacy = colon-plain k j p hj

  pub legacy-info : (legacy_key k == info_storage_key j q) ≡ false
  unfolding info_storage_key
  legacy-info = plain-colon j k q hk

  pub info-bare : (info_storage_key k p == j) ≡ false
  unfolding info_storage_key
  info-bare = colon-plain (codes "info") j (k ++ b':' ∷ p) hj

  pub bare-info : (k == info_storage_key j q) ≡ false
  unfolding info_storage_key
  bare-info = plain-colon (codes "info") k (j ++ b':' ∷ q) hk

  pub legacy-legacy : (legacy_key k == legacy_key j) ≡ (k == j)
  legacy-legacy = refl

  pub legacy-bare : (legacy_key k == j) ≡ false
  legacy-bare = colon-plain (codes "info") j k hj

  pub bare-legacy : (k == legacy_key j) ≡ false
  bare-legacy = plain-colon (codes "info") k j hk
