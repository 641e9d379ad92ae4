-- ===== src/AuthFree.antt =====
-- internal/authfree/authfree.go: the request paths that are exempt from Basic Auth.
pub mod Segments
mod Tests
use timelynotify_server.Base.{
  ℕ, String, Bool, true, false, ◌&&◌, ◌||◌, not, List, [], ◌∷◌, ◌++◌, Option, none, some, Text,
  codes, text_key, nat_eq, if◌then◌else◌, ◌==◌,
}
use timelynotify_server.Base.Strings.{has_prefix}
use mathlib.Core.List.{reverse}

-- strings.Split at "/"
unfoldable pub push_code : ℕ → List Text → List Text
push_code c [] = (c ∷ []) ∷ []
push_code c (w ∷ ws) = (c ∷ w) ∷ ws

unfoldable pub split : Text → List Text
unfolding push_code
split [] = [] ∷ []
split (c ∷ s) = let rest = split s in if nat_eq c b'/' then [] ∷ rest else push_code c rest

-- strings.Join with "/"
unfoldable pub join : List Text → Text
join [] = []
join (w ∷ []) = w
join (w ∷ v ∷ ws) = w ++ b'/' ∷ join (v ∷ ws)

-- ".." drops the element before it, if there is one to drop; `out` is in reverse.
unfoldable pub back_up : Bool → List Text → List Text
back_up rooted [] = if rooted then [] else codes ".." ∷ []
back_up rooted (w ∷ out) = if w == codes ".." then codes ".." ∷ w ∷ out else out

unfoldable pub clean_loop : Bool → List Text → List Text → List Text
unfolding back_up
clean_loop rooted [] out = reverse out
clean_loop rooted (w ∷ ws) out = clean_loop rooted ws (
    if (w == []) || (w == codes ".")
    then out
    else if w == codes ".."
    then back_up rooted out
    else w ∷ out)

unfoldable pub rooted_text : Bool → Text → Text
rooted_text true t = b'/' ∷ t
rooted_text false [] = codes "."
rooted_text false (c ∷ t) = c ∷ t

-- path.Clean
unfoldable pub clean : Text → Text
unfolding split join clean_loop rooted_text
clean p =
    let rooted = has_prefix p (codes "/") in
    rooted_text rooted (join (clean_loop rooted (split p) []))

-- path.Join of two elements, the second one not empty.
unfoldable pub path_join : Text → Text → Text
unfolding clean
path_join a b = if a == [] then clean b else clean (a ++ b'/' ∷ b)

abbrev pub routers : List Text
routers = codes "/ping" ∷ codes "/register" ∷ codes "/healthz" ∷ codes "/info" ∷ []

abbrev pub suffixes : List Text
suffixes = codes "/version" ∷ codes "/message" ∷ codes "/stream" ∷ codes "/message/:id" ∷ []

unfoldable pub trim_or : Text → Text → Text → Text
trim_or whole [] s = s
trim_or whole (b ∷ p) [] = whole
trim_or whole (b ∷ p) (a ∷ s) = let rest = trim_or whole p s in if nat_eq a b then rest else whole

-- strings.TrimPrefix
unfoldable pub trim_prefix : Text → Text → Text
unfolding trim_or
trim_prefix s p = trim_or s p s

unfoldable pub is_router_path : Text → Text → List Text → Bool
unfolding path_join
is_router_path prefix p [] = false
is_router_path prefix p (item ∷ items) =
    let base = path_join prefix item in
    (p == base) || has_prefix p (base ++ codes "/") || is_router_path prefix p items

-- One suffix against the parts behind the device.
unfoldable pub match_parts : List Text → List Text → Bool
match_parts [] [] = true
match_parts [] (p ∷ ps) = false
match_parts (s ∷ ss) [] = false
match_parts (s ∷ ss) (p ∷ ps) =
    (if s == codes ":id" then not (p == []) else s == p) && match_parts ss ps

unfoldable pub match_any : List Text → List Text → Bool
unfolding match_parts split trim_prefix
match_any [] ps = false
match_any (suffix ∷ l) ps =
    match_parts (split (trim_prefix suffix (codes "/"))) ps || match_any l ps

unfoldable pub device_path : List Text → Bool
unfolding match_any
device_path [] = false
device_path (device ∷ []) = false
device_path (device ∷ p ∷ ps) = not (device == []) && match_any suffixes (p ∷ ps)

-- IsAuthFreePath
unfoldable pub is_auth_free_path : Text → Text → Bool
unfolding is_router_path device_path trim_prefix split
is_auth_free_path prefix p =
    is_router_path prefix p routers
    || device_path (split (trim_prefix (trim_prefix p prefix) (codes "/")))
