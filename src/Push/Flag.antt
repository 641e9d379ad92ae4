-- ===== src/Push/Flag.antt =====
-- route_push.go, push: what the walk over ExtParams makes of the delete flag.
use timelynotify_server.Base.{
  ℕ, String, Bool, true, false, not, ◌&&◌, ◌||◌, List, [], ◌∷◌, Option, none, some, text_key,
  if◌then◌else◌, ◌==◌, string_key, ◌≡◌, refl, arith, Bool-cases, Option-cases, inl, inr, str_eq_iff,
  ◌≢◌,
}
use timelynotify_server.Base.Dict
use timelynotify_server.Base.Dict.{Dict, get-put, get-del}
use timelynotify_server.Gotify.Value.{Value, Extras}
use timelynotify_server.Push.Values.{is_truthy_flag}
use timelynotify_server.Push.Message.{is_delete_key, delete_rounds}

abbrev pub is_visited : String → List (String × Value) → Bool
is_visited j [] = false
is_visited j ((k, _) ∷ l) = (k == j) || is_visited j l

module _ (lower : ℕ → ℕ) where
  truthy_at : Option Value → Bool
  truthy_at none = false
  truthy_at (some v) = is_truthy_flag lower v

  -- Some key that reads delete in lower case has a truthy value.
  unfoldable pub wants_delete : List (String × Value) → Extras → Bool
  unfolding truthy_at
  wants_delete [] ext = false
  wants_delete ((k, _) ∷ l) ext =
      (is_delete_key lower k && truthy_at (Dict.get ext k)) || wants_delete l ext

  wants_delete-del :
      (k : String) (l : List (String × Value)) (ext : Extras)
      → truthy_at (Dict.get ext k) ≡ false
      → wants_delete l (Dict.del ext k) ≡ wants_delete l ext
  unfolding wants_delete truthy_at
  wants_delete-del k [] ext h = refl
  wants_delete-del k ((j, v) ∷ l) ext h =
      ground (arith, wants_delete-del k l ext h, get-del ext k j, str_eq_iff k j)

  module _ (own : is_delete_key lower "delete" ≡ true)
      (one : is_truthy_flag lower (Value.str "1") ≡ true) where
    wants_delete-visited :
        (l : List (String × Value)) (ext : Extras)
        → Dict.get ext "delete" ≡ some (Value.str "1")
        → is_visited "delete" l ≡ true
        → wants_delete l ext ≡ true
    unfolding wants_delete truthy_at
    wants_delete-visited [] ext h seen = cc
    wants_delete-visited ((k, v) ∷ l) ext h seen =
        ground (arith, wants_delete-visited l ext h, str_eq_iff k "delete", own, one)

    get-delete_rounds :
        (l : List (String × Value)) (ext : Extras)
        → Dict.get (delete_rounds lower l ext) "delete" ≡ (
            if wants_delete l ext
            then some (Value.str "1")
            else if is_visited "delete" l
            then none
            else Dict.get ext "delete")
    unfolding delete_rounds wants_delete truthy_at
    get-delete_rounds [] ext = refl
    get-delete_rounds ((k, v) ∷ l) ext = elim (Option-cases (Dict.get ext k)) [
      | inl gone ↦ ground (arith, gone, get-delete_rounds l ext, str_eq_iff k "delete")
      | inr (w, e) ↦ elim (Bool-cases (is_delete_key lower k)) [
        | inr other ↦ ground (arith, e, other, own, get-delete_rounds l ext, str_eq_iff k "delete")
        | inl ours ↦ elim (Bool-cases (is_truthy_flag lower w)) [
          | inl truthy ↦
              let written = Dict.put (Dict.del ext k) "delete" (Value.str "1") in
              ground (
                arith,
                e,
                ours,
                truthy,
                get-delete_rounds l written,
                get-put (Dict.del ext k) "delete" "delete" (Value.str "1"),
                wants_delete-visited l written,
              )
          | inr falsy ↦ ground (
            arith,
            e,
            ours,
            falsy,
            get-delete_rounds l (Dict.del ext k),
            wants_delete-del k l ext,
            get-del ext k "delete",
            str_eq_iff k "delete",
          )
        ]
      ]
    ]

    get-delete_rounds_other :
        (j : String) (l : List (String × Value)) (ext : Extras)
        → j ≢ "delete"
        → Dict.get (delete_rounds lower l ext) j
          ≡ (if is_delete_key lower j && is_visited j l then none else Dict.get ext j)
    unfolding delete_rounds
    get-delete_rounds_other j [] ext h = ground arith
    get-delete_rounds_other j ((k, v) ∷ l) ext h = elim (Option-cases (Dict.get ext k)) [
      | inl gone ↦ ground (arith, gone, get-delete_rounds_other j l ext h, str_eq_iff k j)
      | inr (w, e) ↦ elim (Bool-cases (is_delete_key lower k)) [
        | inr other ↦ ground (arith, e, other, get-delete_rounds_other j l ext h, str_eq_iff k j)
        | inl ours ↦ ground (
          arith,
          e,
          ours,
          get-delete_rounds_other j l (Dict.put (Dict.del ext k) "delete" (Value.str "1")) h,
          get-delete_rounds_other j l (Dict.del ext k) h,
          get-put (Dict.del ext k) "delete" j (Value.str "1"),
          get-del ext k j,
          str_eq_iff k j,
          str_eq_iff "delete" j,
        )
      ]
    ]

    -- Whatever order the walk over ExtParams takes, it leaves the value "1" under delete exactly if a
    -- parameter whose name reads delete in lower case has a truthy value, it drops every other spelling
    -- of the name, and it leaves the rest as it is. The walk visits each entry; strings.ToLower keeps
    -- the word delete, and the text 1 is truthy.
    pub delete_rounds_lem :
        (l : List (String × Value)) (ext : Extras) (j : String)
        → ((k : String) → is_visited k l ≡ false → Dict.get ext k ≡ none)
        → Dict.get (delete_rounds lower l ext) j ≡ (
            if not (is_delete_key lower j)
            then Dict.get ext j
            else if (j == "delete") && wants_delete l ext
            then some (Value.str "1")
            else none)
    delete_rounds_lem l ext j all = elim (Bool-cases (j == "delete")) [
      | inl same ↦
          rw ((str_eq_iff j "delete").0 same)
            (ground (arith, get-delete_rounds l ext, all "delete", own))
      | inr other ↦
          ground (arith, other, str_eq_iff j "delete", get-delete_rounds_other j l ext, all j)
    ]
