-- ===== src/Gotify/Value.antt =====
-- The dynamic values that a push carries in `map[string]interface{}` (internal/gotifycompat and
-- route_push.go), and how the fmt package prints them.
use timelynotify_server.Base.{
  String, Bool, true, false, List, [], ◌∷◌, ◌++◌, ◌≡◌, refl, ℤ, Text, codes, if◌then◌else◌, pos,
}
use timelynotify_server.Base.Dict.{Dict}
use timelynotify_server.Base.Strconv.{format_int}
use text.Mathlib.Text.{is_lt}
use Prim.Native.String.{compare}

-- A float64 by what the code reads of it: its text under %v, its text in fixed notation, int64(x),
-- x == float64(int64(x)), and x > 0.
pub record Float64 : Type 0 where
  pub text : Text
  pub plain : Text
  pub trunc : ℤ
  pub integral : Bool
  pub positive : Bool

-- `num` is an int or an int64, `strs` a []string, `arr` a []interface{}, and `obj` a
-- map[string]interface{}.
mutual
  pub data Value : Type 0 where
    null : Value
    flag : Bool → Value
    float : Float64 → Value
    num : ℤ → Value
    str : String → Value
    strs : List String → Value
    arr : Items → Value
    obj : Fields → Value

  pub data Items : Type 0 where
    none_left : Items
    item : Value → Items → Items

  pub data Fields : Type 0 where
    no_more : Fields
    entry : String → Value → Fields → Fields

abbrev pub Extras : Type 0
Extras = Dict String Value

-- Go prints the entries of a map in the order of its keys.
insert_sorted : String → Text → List (String × Text) → List (String × Text)
insert_sorted k t [] = (k, t) ∷ []
insert_sorted k t ((j, u) ∷ l) =
    let rest = insert_sorted k t l in
    if is_lt (compare k j) then (k, t) ∷ (j, u) ∷ l else (j, u) ∷ rest

-- The texts with a space between them.
spaced : List Text → Text
spaced [] = []
spaced (t ∷ []) = t
spaced (t ∷ u ∷ l) = t ++ b' ' ∷ spaced (u ∷ l)

entries_text : List (String × Text) → List Text
entries_text [] = []
entries_text ((k, t) ∷ l) = (codes k ++ b':' ∷ t) ∷ entries_text l

strs_text : List String → List Text
strs_text [] = []
strs_text (s ∷ l) = codes s ∷ strs_text l

flag_text : Bool → Text
flag_text true = codes "true"
flag_text false = codes "false"

-- fmt.Sprint
unfoldable mutual
  unfolding spaced entries_text insert_sorted strs_text flag_text

  pub sprint : Value → Text
  sprint null = codes "<nil>"
  sprint (flag b) = flag_text b
  sprint (float x) = x.text
  sprint (num n) = format_int n
  sprint (str s) = codes s
  sprint (strs l) = b'[' ∷ spaced (strs_text l) ++ b']' ∷ []
  sprint (arr l) = b'[' ∷ spaced (sprint_items l) ++ b']' ∷ []
  sprint (obj f) = codes "map[" ++ spaced (entries_text (sprint_fields f)) ++ b']' ∷ []

  pub sprint_items : Items → List Text
  sprint_items none_left = []
  sprint_items (item v l) = sprint v ∷ sprint_items l

  pub sprint_fields : Fields → List (String × Text)
  sprint_fields no_more = []
  sprint_fields (entry k v f) = insert_sorted k (sprint v) (sprint_fields f)

sprint_obj :
    sprint (obj (entry "b" (num (pos 2)) (entry "a" (strs ("x" ∷ "y" ∷ [])) no_more)))
    ≡ codes "map[a:[x y] b:2]"
unfolding sprint spaced entries_text insert_sorted strs_text format_int
sprint_obj = refl
