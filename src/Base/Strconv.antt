-- ===== src/Base/Strconv.antt =====
-- strconv: decimal texts of 64-bit integers.
use Prim.Native.Nat.{ℕ, zero, suc, ◌+◌, ◌-◌, ◌*◌, ◌/◌, ◌%◌, ◌^◌}
use mathlib.Core.Option.{Option, none, some}
use mathlib.Core.Bool.{◌&&◌}
use mathlib.Core.List.{[], ◌∷◌}
use mathlib.Core.Path.{◌≡◌, refl}
use timelynotify_server.Base.Tests.{ltb, leb, nat_eq, if◌then◌else◌}
use timelynotify_server.Base.Int.{ℤ, pos, negsuc, sub_ℕ, pos_part, neg_part}
use timelynotify_server.Base.Strings.{Text, codes}

-- `none` where a character is no decimal digit.
parse_digits : ℕ → Text → Option ℕ
parse_digits n [] = some n
parse_digits n (c ∷ s) =
    let rest = parse_digits (n * 10 + (c - b'0')) s in
    if leb b'0' c && leb c b'9' then rest else none

bounded : ℕ → Option ℕ → Option ℕ
bounded max none = none
bounded max (some n) = if leb n max then some n else none

-- The digits of a 64-bit number: not empty, decimal, and in range.
magnitude : ℕ → Text → Option ℕ
unfolding parse_digits bounded
magnitude max [] = none
magnitude max (c ∷ s) = bounded max (parse_digits 0 (c ∷ s))

-- strconv.ParseUint(s, 10, 64); `none` stands for an error.
unfoldable pub parse_uint : Text → Option ℕ
unfolding magnitude
parse_uint s = magnitude (2 ^ 64 - 1) s

positive : Option ℕ → Option ℤ
positive none = none
positive (some n) = some (pos n)

negative : Option ℕ → Option ℤ
negative none = none
negative (some n) = some (sub_ℕ 0 n)

-- strconv.ParseInt(s, 10, 64)
unfoldable pub parse_int : Text → Option ℤ
unfolding magnitude positive negative
parse_int [] = none
parse_int (c ∷ s) =
    if nat_eq c b'-'
    then negative (magnitude (2 ^ 63) s)
    else if nat_eq c b'+'
    then positive (magnitude (2 ^ 63 - 1) s)
    else positive (magnitude (2 ^ 63 - 1) (c ∷ s))

-- The decimal digits of `n` before `out`, with fuel for one digit a round.
emit : ℕ → ℕ → Text → Text
emit zero n out = out
emit (suc f) n out =
    let rest = emit f (n / 10) ((b'0' + n % 10) ∷ out) in
    if ltb n 10 then (b'0' + n) ∷ out else rest

-- strconv.FormatUint(n, 10): a uint64 has at most twenty digits.
unfoldable pub format_uint : ℕ → Text
unfolding emit
format_uint n = emit 20 n []

-- strconv.FormatInt(n, 10)
unfoldable pub format_int : ℤ → Text
unfolding format_uint
format_int (pos n) = format_uint n
format_int (negsuc n) = b'-' ∷ format_uint (suc n)

parse_int_examples :
    (parse_int (codes "42") ≡ some (pos 42))
    × (parse_int (codes "-7") ≡ some (negsuc 6))
    × (parse_int (codes "9223372036854775808") ≡ none)
    × (parse_int (codes "-9223372036854775808") ≡ some (negsuc 9223372036854775807))
    × (parse_int (codes "1x") ≡ none)
    × (parse_int [] ≡ none)
unfolding parse_int
parse_int_examples = (refl, refl, refl, refl, refl, refl)

format_int_examples :
    (format_int (pos 18446744073709551615) ≡ codes "18446744073709551615")
    × (format_int (negsuc 11) ≡ codes "-12")
    × (format_int (pos 0) ≡ codes "0")
unfolding format_int
format_int_examples = (refl, refl, refl)

-- The int64 with the low 64 bits of an integer.
unfoldable pub wrap_int64 : ℤ → ℤ
wrap_int64 a =
    let low = (pos_part a + (2 ^ 64 - neg_part a % 2 ^ 64)) % 2 ^ 64 in
    if ltb low (2 ^ 63) then pos low else sub_ℕ low (2 ^ 64)

wrap_int64_examples :
    (wrap_int64 (pos 9223372036854775808) ≡ negsuc 9223372036854775807)
    × (wrap_int64 (negsuc 4) ≡ negsuc 4)
    × (wrap_int64 (pos 4) ≡ pos 4)
unfolding wrap_int64
wrap_int64_examples = (refl, refl, refl)
