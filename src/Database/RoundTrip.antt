-- ===== src/Database/RoundTrip.antt =====
-- database/bbolt.go: parseInfoKey reads what infoStorageKey writes.
use timelynotify_server.Base.{
  ℕ, true, false, [], ◌∷◌, ◌++◌, none, some, Text, codes, text_key, ◌≡◌, refl, arith, inl, inr, ◌⊎◌,
  length, length-append,
}
use timelynotify_server.Base.Strings.{text_eq, text_eq_iff}
use timelynotify_server.Database.{ios, harmony}
use timelynotify_server.Database.Slots.{info_storage_key, cut_suffix, cut_prefix, parse_info_key}

text_eq-length : (s t : Text) → text_eq s t ≡ true → length s ≡ length t
text_eq-length [] [] h = refl
text_eq-length [] (b ∷ t) h = cc
text_eq-length (a ∷ s) [] h = cc
text_eq-length (a ∷ s) (b ∷ t) h = ground (arith, text_eq-length s t)

longer : (c : ℕ) (k s t : Text) → length t ≡ length s → text_eq (c ∷ k ++ s) t ≡ false
longer c k s t h = ground (arith, text_eq-length (c ∷ k ++ s) t, length-append k s)

cut_suffix-append : (k s : Text) → cut_suffix (k ++ s) s ≡ some k
unfolding cut_suffix
cut_suffix-append [] [] = refl
cut_suffix-append [] (b ∷ s) = ground (arith, text_eq_iff s s)
cut_suffix-append (c ∷ k) s = ground (arith, cut_suffix-append k s, longer c k s s refl)

cut_suffix-harmony : (k : Text) → cut_suffix (k ++ codes ":harmony") (codes ":ios") ≡ none
unfolding cut_suffix
cut_suffix-harmony [] = refl
cut_suffix-harmony (c ∷ k) = ground (
  arith,
  cut_suffix-harmony k,
  text_eq-length (c ∷ k ++ codes ":harmony") (codes ":ios"),
  length-append k (codes ":harmony"),
)

-- parseInfoKey gives back the key and the platform that infoStorageKey joined, for both platforms
-- that a registration may name.
pub parse_info_key-storage :
    (key platform : Text)
    → (platform ≡ ios) ⊎ (platform ≡ harmony)
    → parse_info_key (info_storage_key key platform) ≡ some (key, platform)
unfolding parse_info_key info_storage_key cut_prefix
parse_info_key-storage key platform (inl e) =
    rw e (ground (arith, cut_suffix-append key (codes ":ios")))
parse_info_key-storage key platform (inr e) =
    rw e (ground (arith, cut_suffix-harmony key, cut_suffix-append key (codes ":harmony")))
