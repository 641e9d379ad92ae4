-- ===== src/Gotify/Model.antt =====
-- internal/gotifycompat/model.go and the record types of deletions.go, with the functions that read
-- the extras of a message.
use Prim.Native.Nat.{◌^◌}
use text.Mathlib.Text.{◌==◌ as str_eq}
use timelynotify_server.Base.{
  string_key, ℕ, ◌*◌, String, Bool, List, [], ◌∷◌, Option, none, some, ℤ, pos, is_pos_ℤ, Text,
  codes, if◌then◌else◌, ◌%◌, ◌+◌,
}
use timelynotify_server.Base.Dict
use timelynotify_server.Base.Dict.{Dict}
use timelynotify_server.Base.Strings.{equal_fold, trim_space}
use timelynotify_server.Base.Strconv.{parse_int}
use timelynotify_server.Gotify.Value.{Value, Extras, sprint}

pub record Message : Type 0 where
  pub id : ℕ
  pub app_id : ℕ
  pub title : String
  pub message : String
  pub priority : ℤ
  pub extras : Extras
  pub date : String
  pub device_key : String
  pub expires_at : ℤ

-- extras[key].(string), with "" where the entry is missing or no string.
unfoldable pub as_string : Option Value → String
as_string (some (Value.str s)) = s
as_string _ = ""

unfoldable pub device_of : Extras → String
unfolding as_string
device_of extras = as_string (Dict.get extras "device_key")

unfoldable pub source_device : Message → String
unfolding as_string
source_device m =
    if str_eq m.device_key "" then as_string (Dict.get m.extras "device_key") else m.device_key

sprint_or_empty : Option Value → Text
sprint_or_empty none = []
sprint_or_empty (some v) = sprint v

unfoldable pub extra_id_of : Message → Text
unfolding sprint_or_empty
extra_id_of m = sprint_or_empty (Dict.get m.extras "id")

-- The case of `ttlFromExtras` for one value under a "ttl" key.
ttl_of : Value → Option ℤ
ttl_of (Value.float x) = if x.positive then some x.trunc else none
ttl_of (Value.num n) = if is_pos_ℤ n then some n else none
ttl_of (Value.str s) = elim (parse_int (trim_space (codes s))) [
  | none ↦ none
  | some n ↦ if is_pos_ℤ n then some n else none
]
ttl_of _ = none

ttl_scan : List (String × Value) → Option ℤ
ttl_scan [] = none
ttl_scan ((k, v) ∷ l) =
    let rest = ttl_scan l in
    if equal_fold k "ttl" then elim (ttl_of v) [ some n ↦ some n | none ↦ rest ] else rest

unfoldable pub ttl_from_extras : Extras → Option ℤ
unfolding ttl_scan ttl_of
ttl_from_extras extras = ttl_scan extras.entries

pub data DeletionKind : Type 0 where
  single purge reset by_extra_id : DeletionKind

pub record DeletionRecord : Type 0 where
  pub id : ℕ
  pub device_key : String
  pub kind : DeletionKind
  pub message_id : ℕ
  pub ceiling : ℕ
  pub extra_id : Text
  pub created_at : ℤ

pub record DeletionsPage : Type 0 where
  pub ids : List ℕ
  pub purges : List ℕ
  pub extra_ids : List ℤ
  pub cursor : ℕ
  pub has_more : Bool
  pub reset : Bool

-- The records that the stores build: the fields that are left out are zero.
abbrev pub single_row : String → ℕ → DeletionRecord
single_row device id = record {
  id = 0;
  device_key = device;
  kind = single;
  message_id = id;
  ceiling = 0;
  extra_id = [];
  created_at = pos 0;
}

abbrev pub purge_row : String → ℕ → DeletionRecord
purge_row device ceiling = record {
  id = 0;
  device_key = device;
  kind = purge;
  message_id = 0;
  ceiling = ceiling;
  extra_id = [];
  created_at = pos 0;
}

abbrev pub reset_row : String → ℤ → DeletionRecord
reset_row device now = record {
  id = 0;
  device_key = device;
  kind = reset;
  message_id = 0;
  ceiling = 0;
  extra_id = [];
  created_at = now;
}

abbrev pub extra_row : String → Text → DeletionRecord
extra_row device extra_id = record {
  id = 0;
  device_key = device;
  kind = by_extra_id;
  message_id = 0;
  ceiling = 0;
  extra_id = extra_id;
  created_at = pos 0;
}

abbrev pub page_limit : ℕ
page_limit = 500

-- 30 days, in seconds.
abbrev pub retention : ℕ
retention = 30 * 24 * 3600

-- A uint64 counter that is incremented.
abbrev pub succ_uint64 : ℕ → ℕ
succ_uint64 n = (n + 1) % 2 ^ 64
