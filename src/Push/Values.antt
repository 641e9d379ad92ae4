-- ===== src/Push/Values.antt =====
-- route_push.go: the coercions of request parameters.
use timelynotify_server.Base.{
  ℕ, String, Bool, true, false, not, ◌||◌, List, [], ◌∷◌, Option, none, some, ℤ, Text, codes,
  text_key, if◌then◌else◌, ◌==◌, map, select, is_zero_ℤ,
}
use timelynotify_server.Base.Strings.{trim_space, string_of}
use timelynotify_server.Base.Strconv.{parse_int, format_int}
use timelynotify_server.Gotify.Value.{Value, Items, none_left, item, sprint}

-- toInt; `none` stands for an error. An int has 64 bits.
unfoldable pub to_int : Text → Option ℤ
to_int s = parse_int (trim_space s)

-- numberToString; no decoder of a request yields a json.Number.
unfoldable pub number_to_string : Value → Text
number_to_string Value.null = []
number_to_string (Value.str s) = codes s
number_to_string (Value.float x) = if x.integral then format_int x.trunc else x.plain
number_to_string (Value.num n) = format_int n
number_to_string v = sprint v

-- JSON arrays in a text: what json-iterator makes of it, as a []string and as a []interface{}.
pub record Arrays : Type 0 where
  pub strings : String → Option (List String)
  pub items : String → Option Items

is_not_empty : String → Bool
is_not_empty s = not (codes s == [])

sprint_all : Items → List String
sprint_all none_left = []
sprint_all (item v l) = string_of (sprint v) ∷ sprint_all l

one_line : String → List String
unfolding is_not_empty
one_line s = if is_not_empty s then s ∷ [] else []

module _ (lower : ℕ → ℕ) where
  -- strings.ToLower
  unfoldable pub lowered : String → Text
  lowered s = map lower (codes s)

  -- isTruthyFlag
  unfoldable pub is_truthy_flag : Value → Bool
  is_truthy_flag (Value.flag b) = b
  is_truthy_flag Value.null = false
  is_truthy_flag (Value.str s) =
      let word = map lower (trim_space (codes s)) in
      (word == [])
      || (word == codes "1")
      || (word == codes "true")
      || (word == codes "yes")
      || (word == codes "on")
  is_truthy_flag v = elim (to_int (number_to_string v)) [ some n ↦ not (is_zero_ℤ n) | none ↦ true ]

-- toInboxStrings; a nil slice is the empty list, since callers ask only for its length.
module _ (arrays : Arrays) where
  unfoldable pub to_inbox_strings : Value → List String
  unfolding is_not_empty sprint_all one_line
  to_inbox_strings (Value.strs l) = select is_not_empty l
  to_inbox_strings (Value.arr l) = select is_not_empty (sprint_all l)
  to_inbox_strings (Value.str s) = elim (arrays.strings s) [
    | some l ↦ select is_not_empty l
    | none ↦ elim (arrays.items s) [
      | some l ↦ select is_not_empty (sprint_all l)
      | none ↦ one_line s
    ]
  ]
  to_inbox_strings v = one_line (string_of (sprint v))
