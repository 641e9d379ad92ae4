-- ===== src/Logging.antt =====
-- internal/logging/sanitize.go: what a log line shows of a push.
mod Tests
use timelynotify_server.Base.{
  ℕ, ◌+◌, ◌-◌, ◌≤◌, String, Bool, true, false, ◌&&◌, ◌||◌, not, List, [], ◌∷◌, ◌++◌, Option, none,
  some, pos, Text, codes, text_key, ltb, leb, if◌then◌else◌, length, take, drop, map, ◌==◌, ◌≡◌,
  refl, arith, nat_key, string_key,
}
use timelynotify_server.Base.Strconv.{format_uint}
use timelynotify_server.Gotify.Value.{Value, Items, Fields, none_left, item, no_more, entry, sprint}

abbrev sensitive_keys : List Text
sensitive_keys =
    codes "device_key"
    ∷ codes "device_token"
    ∷ codes "devicetoken"
    ∷ codes "token"
    ∷ codes "client_token"
    ∷ []

abbrev content_keys : List Text
content_keys =
    codes "title"
    ∷ codes "subtitle"
    ∷ codes "body"
    ∷ codes "markdown"
    ∷ codes "copy"
    ∷ codes "data"
    ∷ codes "inboxcontent"
    ∷ codes "ciphertext"
    ∷ []

is_listed : Text → List Text → Bool
is_listed t [] = false
is_listed t (k ∷ l) = k == t || is_listed t l

-- MaskMiddle, on a text of ASCII, as a token is.
unfoldable pub mask_middle : Text → Text
mask_middle s =
    if ltb (length s) 12 then codes "***" else take 4 s ++ codes "***" ++ drop (length s - 4) s

-- "[name=n]"
abbrev counted : String → ℕ → Text
counted name n = codes "[" ++ codes name ++ codes "=" ++ format_uint n ++ codes "]"

-- MaskContent
unfoldable pub mask_content : Text → Text
mask_content s = counted "len" (length s)

item_count : Items → ℕ
item_count none_left = 0
item_count (item v l) = item_count l + 1

field_count : Fields → ℕ
field_count no_more = 0
field_count (entry k v l) = field_count l + 1

-- maskContentValue
unfoldable pub mask_content_value : Value → Text
unfolding mask_content item_count field_count
mask_content_value Value.null = codes "[len=0]"
mask_content_value (Value.str s) = mask_content (codes s)
mask_content_value (Value.obj f) = counted "fields" (field_count f)
mask_content_value (Value.arr l) = counted "items" (item_count l)
mask_content_value (Value.strs l) = counted "items" (length l)
mask_content_value v = mask_content (sprint v)

-- A logged value: a text that stands in for it, or the value itself.
pub data Logged : Type 0 where
  masked : Text → Logged
  shown : Value → Logged

mask_sensitive : Value → Logged
unfolding mask_middle
mask_sensitive (Value.str s) = masked (mask_middle (codes s))
mask_sensitive _ = masked (codes "***")

mask_other : Value → Logged
unfolding mask_content_value
mask_other (Value.obj f) = masked (mask_content_value (Value.obj f))
mask_other (Value.arr l) = masked (mask_content_value (Value.arr l))
mask_other (Value.strs l) = masked (mask_content_value (Value.strs l))
mask_other v = shown v

-- What strings.ToLower does to a rune comes from the tables of the unicode package.
module _ (lower : ℕ → ℕ) where
  unfoldable pub is_sensitive_key : String → Bool
  unfolding is_listed
  is_sensitive_key key = is_listed (map lower (codes key)) sensitive_keys

  unfoldable pub is_content_key : String → Bool
  unfolding is_listed
  is_content_key key = is_listed (map lower (codes key)) content_keys

  -- One entry of MaskSensitiveFields.
  unfoldable pub mask_field : String → Value → Logged
  unfolding mask_sensitive mask_other mask_content_value
  mask_field key v =
      if is_sensitive_key key
      then mask_sensitive v
      else if is_content_key key
      then masked (mask_content_value v)
      else mask_other v

  unfoldable pub mask_sensitive_fields : List (String × Value) → List (String × Logged)
  unfolding mask_field
  mask_sensitive_fields [] = []
  mask_sensitive_fields ((key, v) ∷ l) = (key, mask_field key v) ∷ mask_sensitive_fields l

  -- The log keeps a content text secret but for its length: two texts of the same length under a
  -- content key that is not sensitive are logged alike.
  pub mask_field-content :
      (key s t : String)
      → is_sensitive_key key ≡ false
      → is_content_key key ≡ true
      → length (codes s) ≡ length (codes t)
      → mask_field key (Value.str s) ≡ mask_field key (Value.str t)
  unfolding mask_field mask_content_value mask_content
  mask_field-content key s t plain content same = rw (plain, content, same, mask_field) refl

  -- The log shows at most four characters at each end of a sensitive text: two long texts that agree
  -- there are logged alike, and so are two short ones.
  pub mask_field-sensitive :
      (key s t : String)
      → is_sensitive_key key ≡ true
      → ltb (length (codes s)) 12 ≡ ltb (length (codes t)) 12
      → take 4 (codes s) ≡ take 4 (codes t)
      → drop (length (codes s) - 4) (codes s) ≡ drop (length (codes t) - 4) (codes t)
      → mask_field key (Value.str s) ≡ mask_field key (Value.str t)
  unfolding mask_field mask_sensitive mask_middle
  mask_field-sensitive key s t sensitive size front back =
      rw (sensitive, size, front, back, mask_field) refl
