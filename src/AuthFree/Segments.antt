-- ===== src/AuthFree/Segments.antt =====
-- internal/authfree/authfree.go: the exempt paths by their segments.
use timelynotify_server.Base.{
  ℕ, Bool, true, false, ◌&&◌, ◌||◌, not, List, [], ◌∷◌, ◌++◌, Text, codes, text_key, nat_eq, ◌≡◌,
  refl, ap, arith, ◌==◌,
}
use timelynotify_server.Base.Strings.{has_prefix}
use timelynotify_server.AuthFree.{
  split, push_code, path_join, clean, clean_loop, join, rooted_text, routers, trim_prefix, trim_or,
  is_router_path, match_parts, match_any, device_path, is_auth_free_path,
}

abbrev first_segment : List Text → Text
first_segment [] = []
first_segment (w ∷ ws) = w

abbrev is_word : Text → Bool
is_word [] = true
is_word (c ∷ w) = not (nat_eq c b'/') && is_word w

first-push : (c : ℕ) (ws : List Text) → first_segment (push_code c ws) ≡ c ∷ first_segment ws
unfolding push_code
first-push c [] = refl
first-push c (w ∷ ws) = refl

-- A text is a word or begins with the word and a slash just where its first segment is the word.
first_segment-is :
    (w t : Text)
    → is_word w ≡ true
    → ((t == w) || has_prefix t (w ++ codes "/")) ≡ (w == first_segment (split t))
unfolding split
first_segment-is [] [] h = refl
first_segment-is [] (a ∷ t) h = ground (arith, first-push a (split t))
first_segment-is (b ∷ w) [] h = refl
first_segment-is (b ∷ w) (a ∷ t) h = ground (arith, first-push a (split t), first_segment-is w t)

abbrev is_one_of : Text → List Text → Bool
is_one_of w [] = false
is_one_of w (v ∷ vs) = v == w || is_one_of w vs

abbrev router_names : List Text
router_names = codes "ping" ∷ codes "register" ∷ codes "healthz" ∷ codes "info" ∷ []

abbrev scoped_names : List Text
scoped_names = codes "version" ∷ codes "message" ∷ codes "stream" ∷ []

-- Behind a device, one of three names, or "message" and an id.
abbrev is_scoped : List Text → Bool
is_scoped (device ∷ name ∷ []) = not (device == []) && is_one_of name scoped_names
is_scoped (device ∷ name ∷ id ∷ []) =
    not (device == []) && ((codes "message" == name) && not (id == []))
is_scoped _ = false

-- What the documentation promises of the segments of a path.
unfoldable pub is_exempt : List Text → Bool
is_exempt segments = is_one_of (first_segment segments) router_names || is_scoped segments

two_segments :
    (a b c : Bool)
    → ((a && true) || ((b && true) || ((c && true) || ((b && false) || false))))
      ≡ (a || (b || (c || false)))
two_segments true b c = refl
two_segments false true c = refl
two_segments false false true = refl
two_segments false false false = refl

three_segments :
    (a b c e : Bool)
    → ((a && false) || ((b && false) || ((c && false) || ((b && (e && true)) || false)))) ≡ (b && e)
three_segments a b c e = ground arith

more_segments :
    (a b c e : Bool)
    → ((a && false) || ((b && false) || ((c && false) || ((b && (e && false)) || false)))) ≡ false
more_segments a b c e = ground arith

and_false : (d x : Bool) → x ≡ false → (d && x) ≡ false
and_false d x h = ground (arith, h)

device_path-is_scoped : (ws : List Text) → device_path ws ≡ is_scoped ws
unfolding device_path match_any match_parts split push_code trim_prefix trim_or
device_path-is_scoped [] = refl
device_path-is_scoped (d ∷ []) = refl
device_path-is_scoped (d ∷ p ∷ []) =
    ap (λ x. not (d == []) && x)
      (two_segments (codes "version" == p) (codes "message" == p) (codes "stream" == p))
device_path-is_scoped (d ∷ p ∷ q ∷ []) =
    ap (λ x. not (d == []) && x)
      (three_segments (codes "version" == p) (codes "message" == p) (codes "stream" == p)
        (not (q == [])))
device_path-is_scoped (d ∷ p ∷ q ∷ r ∷ ws) = and_false (not (d == [])) _ (
    more_segments (codes "version" == p) (codes "message" == p) (codes "stream" == p)
      (not (q == [])))

or-split : (a b x r r' : Bool) → (a || b) ≡ x → r ≡ r' → (a || b || r) ≡ (x || r')
or-split a b x r r' h k = ground (arith, h, k)

router-first :
    (t : Text)
    → is_router_path [] (b'/' ∷ t) routers ≡ is_one_of (first_segment (split t)) router_names
unfolding is_router_path path_join clean clean_loop split push_code join rooted_text
router-first t =
    let first = first_segment (split t) in
    or-split (t == codes "ping") (has_prefix t (codes "ping/")) (codes "ping" == first) _ _
      (first_segment-is (codes "ping") t refl)
      (or-split (t == codes "register") (has_prefix t (codes "register/"))
        (codes "register" == first) _ _ (first_segment-is (codes "register") t refl)
        (or-split (t == codes "healthz") (has_prefix t (codes "healthz/"))
          (codes "healthz" == first) _ _ (first_segment-is (codes "healthz") t refl)
          (or-split (t == codes "info") (has_prefix t (codes "info/")) (codes "info" == first) _ _
            (first_segment-is (codes "info") t refl) refl)))

-- Without a URL prefix, a path is exempt from Basic Auth exactly if its first segment is one of the
-- four global names, or it is a device key followed by "version", "message" or "stream", or by
-- "message" and an id that is not empty: a longer word, or a further segment, is not exempt.
pub is_auth_free_path-is_exempt : (t : Text) → is_auth_free_path [] (b'/' ∷ t) ≡ is_exempt (split t)
unfolding is_auth_free_path is_exempt trim_prefix trim_or
is_auth_free_path-is_exempt t = rw (router-first t, device_path-is_scoped (split t)) refl
