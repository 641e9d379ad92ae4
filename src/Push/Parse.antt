-- ===== src/Push/Parse.antt =====
-- route_push.go: routeDoPush, from a request to its parameters and to the reply. The body null, which
-- leaves no map to write to, is left out.
use timelynotify_server.Base.{
  ℕ, zero, suc, String, Bool, true, false, List, [], ◌∷◌, ◌++◌, Option, none, some, ℤ, pos, negsuc,
  Text, codes, text_key, string_key, nat_key, if◌then◌else◌, ◌==◌, nat_eq, ltb, length, ◌>>=◌,
}
use timelynotify_server.Base.Strings.{string_of, has_prefix}
use timelynotify_server.Base.Dict
use timelynotify_server.Base.Dict.{Dict}
use timelynotify_server.Database.{DeviceInfo}
use timelynotify_server.Gotify.Value.{Value, Items, none_left, item, Extras, sprint}
use timelynotify_server.Push.Values.{lowered}
use timelynotify_server.Push.Deliver.{Env, World, Status, ok, failure}
use timelynotify_server.Push.Request.{push}

-- A request, as fiber hands it over: the arguments in the order of VisitAll, the fields of a multipart
-- form (none if there is no form), the body as JSON (none if it cannot be parsed; empty on
-- ErrUnprocessableEntity), and the parameters of the path, "" if the route has none.
pub record Request : Type 0 where
  pub content_type : Text
  pub query : List (String × String)
  pub post : List (String × String)
  pub form : List (String × List String)
  pub body : Option Extras
  pub path_device_key : String
  pub path_subtitle : String
  pub path_title : String
  pub path_body : String

-- A row of the reply to a batch.
pub record Row : Type 0 where
  pub device_key : String
  pub status : Status

pub data Reply : Type 0 where
  single : Status → Reply
  batch : List (Option Row) → Reply

-- c.Status(code).JSON(failed(...)), or success(), which says 200.
unfoldable pub answer_of : Status → Status
answer_of status = if status.failed then status else ok

-- The visitor of the arguments.
unfoldable pub put_args : (ℕ → ℕ) → List (String × String) → Extras → Extras
put_args lower [] params = params
put_args lower ((key, value) ∷ l) params =
    put_args lower l (Dict.put params (string_of (lowered lower key)) (Value.str value))

-- The fields of the form, by their first value.
unfoldable pub put_form : List (String × List String) → Extras → Extras
put_form [] params = params
put_form ((key, []) ∷ l) params = put_form l params
put_form ((key, value ∷ _) ∷ l) params = put_form l (Dict.put params key (Value.str value))

-- A parameter of the path that is percent-encoded; none is an error of QueryUnescape.
unfoldable pub put_path : (String → Option String) → String → String → Extras → Option Extras
put_path unescape name value params = elim (value == "") as (λ _. Option Extras) [
  | true ↦ some params
  | false ↦ do text ← unescape value; some (Dict.put params name (Value.str text))
]

-- extractUrlPathParams, written over the other parameters
unfoldable pub extract_url_path_params : (String → Option String) → Request → Extras → Option Extras
unfolding put_path
extract_url_path_params unescape r params =
    let keyed : Extras =
      if r.path_device_key == ""
      then params
      else Dict.put params "device_key" (Value.str r.path_device_key) in
    (do
      p1 ← put_path unescape "subtitle" r.path_subtitle keyed
      p2 ← put_path unescape "title" r.path_title p1
      put_path unescape "body" r.path_body p2)

-- strings.Split(s, ","), with the part read so far
unfoldable pub split_comma : Text → Text → List String
split_comma part [] = string_of part ∷ []
split_comma part (c ∷ cs) =
    let ends = string_of part ∷ split_comma [] cs in
    let goes_on = split_comma (part ++ c ∷ []) cs in if nat_eq c b',' then ends else goes_on

unfoldable pub printed : Items → List String
printed none_left = []
printed (item v l) = string_of (sprint v) ∷ printed l

-- The devices that a request names, none where device_keys has another type.
unfoldable pub device_keys : Option Value → Option (List String)
unfolding split_comma printed
device_keys none = some []
device_keys (some (Value.str s)) = some (split_comma [] (codes s))
device_keys (some (Value.arr l)) = some (printed l)
device_keys (some _) = none

-- count > maxBatchPushCount && maxBatchPushCount != -1
unfoldable pub is_over : ℤ → ℕ → Bool
is_over (pos max) count = ltb max count
is_over (negsuc zero) count = false
is_over (negsuc (suc _)) count = true

abbrev pub key_at : List String → ℕ → Option String
key_at [] i = none
key_at (k ∷ ks) zero = some k
key_at (k ∷ ks) (suc i) = key_at ks i

-- The rows 0 to n - 1, after the rows that are read already.
unfoldable pub rows : Dict ℕ Row → ℕ → List (Option Row)
rows results zero = []
rows results (suc n) = rows results n ++ Dict.get results n ∷ []

module _ {R H : Type 0} (env : Env R H) (unescape : String → Option String) where
  -- The pushes of a batch, in the order in which they end; `fans` is the order of the deliveries in each.
  unfoldable pub run_batch :
      (ℕ → List DeviceInfo → List DeviceInfo)
      → List String
      → Extras
      → List ℕ
      → Dict ℕ Row × World R H
      → Dict ℕ Row × World R H
  run_batch fans keys params [] (results, w) = (results, w)
  run_batch fans keys params (i ∷ is) (results, w) = elim (key_at keys i) [
    | none ↦ run_batch fans keys params is (results, w)
    | some key ↦
        let (status, w') = push env (fans i) (Dict.put params "device_key" (Value.str key)) w in
        run_batch fans keys params is
          (Dict.put results i (record { device_key = key; status = status }), w')
  ]

  -- routeDoPushV1
  unfoldable pub route_do_push_v1 :
      (ℕ → List DeviceInfo → List DeviceInfo) → Request → World R H → Reply × World R H
  unfolding put_args put_form extract_url_path_params answer_of
  route_do_push_v1 fans r w =
      let params =
        put_form r.form (put_args env.lower r.post (put_args env.lower r.query Dict.empty)) in
      elim (extract_url_path_params unescape r params) as (λ _. Reply × World R H) [
        | none ↦ (single (failure 400), w)
        | some params' ↦
            let (status, w') = push env (fans 0) params' w in (single (answer_of status), w')
      ]

  -- routeDoPushV2 for the devices that the request names
  unfoldable pub push_all :
      (ℕ → List DeviceInfo → List DeviceInfo)
      → ℤ
      → List ℕ
      → List String
      → Extras
      → World R H
      → Reply × World R H
  unfolding run_batch rows is_over answer_of
  push_all fans max ends [] params w =
      let (status, w') = push env (fans 0) params w in (single (answer_of status), w')
  push_all fans max ends (key ∷ keys) params w =
      let count = length (key ∷ keys) in
      let (results, w') = run_batch fans (key ∷ keys) params ends (Dict.empty, w) in
      if is_over max count then (single (failure 400), w) else (batch (rows results count), w')

  -- routeDoPushV2
  unfoldable pub route_do_push_v2 :
      (ℕ → List DeviceInfo → List DeviceInfo) → ℤ → List ℕ → Request → World R H → Reply × World R H
  unfolding push_all device_keys put_args extract_url_path_params
  route_do_push_v2 fans max ends r w = elim r.body as (λ _. Reply × World R H) [
    | none ↦ (single (failure 400), w)
    | some body ↦
        elim (extract_url_path_params unescape r (put_args env.lower r.query body))
          as (λ _. Reply × World R H) [
            | none ↦ (single (failure 400), w)
            | some params ↦
                elim (device_keys (Dict.get params "device_keys")) as (λ _. Reply × World R H) [
                  | none ↦ (single (failure 400), w)
                  | some keys ↦ push_all fans max ends keys (Dict.del params "device_keys") w
                ]
          ]
  ]

  -- routeDoPush; the content type is in lower case, and a vendor's type is reduced to its base.
  unfoldable pub route_do_push :
      (ℕ → List DeviceInfo → List DeviceInfo) → ℤ → List ℕ → Request → World R H → Reply × World R H
  unfolding route_do_push_v1 route_do_push_v2
  route_do_push fans max ends r w =
      if has_prefix r.content_type (codes "application/json")
      then route_do_push_v2 fans max ends r w
      else route_do_push_v1 fans r w
