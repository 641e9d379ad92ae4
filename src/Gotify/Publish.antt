-- ===== src/Gotify/Publish.antt =====
-- gotify_publish.go: the priority of a push by its level.
mod Tests
use timelynotify_server.Base.{
  ℕ, ◌≤◌, String, Bool, true, false, ◌||◌, List, [], ◌∷◌, Option, none, some, Text, codes, text_key,
  string_key, map, if◌then◌else◌, ◌==◌, ◌≡◌, refl, arith, ==→≡, ◌&&◌, not, nat_eq, Bool-cases, inl,
  inr, ◌↔◌, ap, sym,
}
use timelynotify_server.Base.Dict
use timelynotify_server.Gotify.Value.{Value, Extras}
use timelynotify_server.Gotify.Model.{as_string}

unfoldable level_priority : Text → ℕ
level_priority level =
    if (level == codes "critical") || (level == codes "timeSensitive")
    then 2
    else if level == codes "active"
    then 1
    else 0

-- What strings.ToLower does to a rune comes from the tables of the unicode package.
module _ (lower : ℕ → ℕ) where
  -- gotifyPriority
  unfoldable pub gotify_priority : Extras → ℕ
  unfolding level_priority
  gotify_priority extras = level_priority (map lower (codes (as_string (Dict.get extras "level"))))

-- No rune of the text is a capital S.
unfoldable no_capital : Text → Bool
no_capital [] = true
no_capital (c ∷ t) = not (nat_eq c b'S') && no_capital t

no_capital-map :
    (lower : ℕ → ℕ)
    → ((c : ℕ) → nat_eq (lower c) b'S' ≡ false)
    → (t : Text) → no_capital (map lower t) ≡ true
unfolding no_capital
no_capital-map lower small [] = refl
no_capital-map lower small (c ∷ t) = ground (arith, small c, no_capital-map lower small t)

not_time_sensitive : (t : Text) → no_capital t ≡ true → (t == codes "timeSensitive") ≡ false
unfolding no_capital
not_time_sensitive t h = elim (Bool-cases (t == codes "timeSensitive")) [
  | inr other ↦ other
  | inl same ↦ absurd (ground (arith, h, ap no_capital (==→≡ t (codes "timeSensitive") same)))
]

level_priority_lem :
    (level : Text)
    → no_capital level ≡ true
    → ((level_priority level ≡ 2) ↔ (level ≡ codes "critical"))
      × ((level_priority level ≡ 1) ↔ (level ≡ codes "active"))
      × (level_priority level ≤ 2)
unfolding level_priority
level_priority_lem level small =
    let critical = text_key.same_iff level (codes "critical") in
    let active = text_key.same_iff level (codes "active") in
    let dead = not_time_sensitive level small in
    (
      (λ h. critical.0 (ground (arith, h, dead)), λ h. ground (arith, critical.1 h)),
      (λ h. active.0 (ground (arith, h, dead)), λ h. ground (arith, active.1 h, dead, critical.0)),
      ground (arith, dead),
    )

-- The priority of a push for every level: 2 exactly for a level that reads "critical" in lower case, 1
-- exactly for one that reads "active", and 0 for any other, "timeSensitive" among them. The hypothesis
-- is what strings.ToLower promises of the letter S: no rune of its result is one.
pub gotify_priority_lem :
    (lower : ℕ → ℕ) (extras : Extras)
    → ((c : ℕ) → nat_eq (lower c) b'S' ≡ false)
    → let level = map lower (codes (as_string (Dict.get extras "level"))) in
      ((gotify_priority lower extras ≡ 2) ↔ (level ≡ codes "critical"))
      × ((gotify_priority lower extras ≡ 1) ↔ (level ≡ codes "active"))
      × (gotify_priority lower extras ≤ 2)
unfolding gotify_priority
gotify_priority_lem lower extras small =
    level_priority_lem (map lower (codes (as_string (Dict.get extras "level"))))
      (no_capital-map lower small (codes (as_string (Dict.get extras "level"))))
