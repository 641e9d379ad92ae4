-- ===== src/Base/Strings.antt =====
-- Texts as lists of code points, for the code that walks them; whole texts that are only compared
-- stay native strings.
use Prim.Native.Char.{Char, char, code, IsScalar}
use Prim.Native.Nat.{ℕ, compare, Ordering}
use Prim.Native.String.{String}
use mathlib.Core.Path.{◌≡◌, refl}
use mathlib.Core.Logic.{◌↔◌}
use mathlib.Core.Bool.{Bool, true, false, ◌&&◌, ◌||◌}
use mathlib.Core.List.{List, [], ◌∷◌, map, reverse}
use native.Mathlib.Omega.{arith}
use timelynotify_server.Base.Tests.{leb, ltb, nat_eq, if◌then◌else◌}
use timelynotify_server.Base.Keys.{Eq}
use Prim.Native.Nat.{◌+◌}

abbrev pub Text : Type 0
Text = List ℕ

abbrev pub codes : String → Text
codes String.[] = []
codes (String.◌∷◌ c s) = code c ∷ codes s

-- Equality of two walked texts.
abbrev pub text_eq : Text → Text → Bool
text_eq [] [] = true
text_eq [] (b ∷ t) = false
text_eq (a ∷ s) [] = false
text_eq (a ∷ s) (b ∷ t) = nat_eq a b && text_eq s t

text_eq→≡ : (s t : Text) → text_eq s t ≡ true → s ≡ t
text_eq→≡ [] [] h = refl
text_eq→≡ [] (b ∷ t) h = cc
text_eq→≡ (a ∷ s) [] h = cc
text_eq→≡ (a ∷ s) (b ∷ t) h = ground (arith, text_eq→≡ s t)

text_eq_refl : (s : Text) → text_eq s s ≡ true
text_eq_refl [] = refl
text_eq_refl (a ∷ s) = ground (arith, text_eq_refl s)

pub text_eq_iff : (s t : Text) → (text_eq s t ≡ true) ↔ (s ≡ t)
text_eq_iff s t = (text_eq→≡ s t, λ p. rw p (text_eq_refl t))

instance abbrev pub text_key : Eq Text
text_key = record { same = text_eq; same_iff = text_eq_iff }

-- strings.HasPrefix
abbrev pub has_prefix : Text → Text → Bool
has_prefix s [] = true
has_prefix [] (b ∷ p) = false
has_prefix (a ∷ s) (b ∷ p) = nat_eq a b && has_prefix s p

-- strings.Contains
abbrev pub contains_text : Text → Text → Bool
contains_text [] sub = has_prefix [] sub
contains_text (a ∷ s) sub = has_prefix (a ∷ s) sub || contains_text s sub

-- unicode.IsSpace
unfoldable pub is_space : ℕ → Bool
is_space c =
    leb 9 c && leb c 13
    || nat_eq c 32
    || nat_eq c 0x85
    || nat_eq c 0xa0
    || nat_eq c 0x1680
    || leb 0x2000 c && leb c 0x200a
    || nat_eq c 0x2028
    || nat_eq c 0x2029
    || nat_eq c 0x202f
    || nat_eq c 0x205f
    || nat_eq c 0x3000

unfoldable pub trim_left : (ℕ → Bool) → Text → Text
trim_left p [] = []
trim_left p (c ∷ s) = let rest = trim_left p s in if p c then rest else c ∷ s

-- strings.TrimFunc with the test `p`.
unfoldable pub trim : (ℕ → Bool) → Text → Text
unfolding trim_left
trim p s = reverse (trim_left p (reverse (trim_left p s)))

-- strings.TrimSpace
unfoldable pub trim_space : Text → Text
unfolding trim is_space
trim_space s = trim is_space s

-- Simple case folding towards an ASCII letter: besides the capitals, U+017F folds to `s` and
-- U+212A to `k`. It decides strings.EqualFold against a lower-case ASCII text.
unfoldable pub fold : ℕ → ℕ
fold c =
    if leb b'A' c && leb c b'Z'
    then c + 32
    else if nat_eq c 0x17f
    then b's'
    else if nat_eq c 0x212a
    then b'k'
    else c

-- strings.EqualFold(s, t) at a lower-case ASCII `t`.
unfoldable pub equal_fold : String → String → Bool
unfolding fold
equal_fold s t = text_eq (map fold (codes s)) (codes t)

pub IsScalar-low : (n : ℕ) → ltb n 55296 ≡ true → IsScalar n
IsScalar-low n h = let e : compare n 55296 ≡ Ordering.lt = ground (arith, h) in rw e tt

pub IsScalar-high : (n : ℕ) → (ltb 57343 n && ltb n 1114112) ≡ true → IsScalar n
IsScalar-high n h =
    let a : compare n 55296 ≡ Ordering.gt = ground (arith, h) in
    let b : compare 57343 n ≡ Ordering.lt = ground (arith, h) in
    let c : compare n 1114112 ≡ Ordering.lt = ground (arith, h) in rw (a, b, c) tt

high_char : (n : ℕ) (b : Bool) → (ltb 57343 n && ltb n 1114112) ≡ b → Char
high_char n true h = char n (IsScalar-high n h)
high_char n false h = char 65533 tt

low_char : (n : ℕ) (b : Bool) → ltb n 55296 ≡ b → Char
unfolding high_char
low_char n true h = char n (IsScalar-low n h)
low_char n false h = high_char n (ltb 57343 n && ltb n 1114112) refl

-- string(rune(n)): a number that is no code point gives U+FFFD.
char_of : ℕ → Char
unfolding low_char
char_of n = low_char n (ltb n 55296) refl

-- The string of the code points.
unfoldable pub string_of : Text → String
unfolding char_of
string_of [] = String.[]
string_of (c ∷ s) = String.◌∷◌ (char_of c) (string_of s)

-- strings.HasSuffix
unfoldable pub has_suffix : Text → Text → Bool
has_suffix s suffix = has_prefix (reverse s) (reverse suffix)

string_of_abc : string_of (codes "abc") ≡ "abc"
unfolding string_of
string_of_abc = refl
