-- ===== src/Topic/Matching.antt =====
-- `topic_matches` against the matching rules of [MQTT-4.7].
use minimosq_mqtt.Prelude.{
  ℕ, suc, ◌≡◌, refl, ◌↔◌, ◌⊎◌, inl, inr, true, some, List, [], ◌∷◌, arith, Bool-cases, Bytes,
  length,
}
use minimosq_mqtt.Core.Span.{view_eq→eq, view_eq_refl}
use minimosq_mqtt.Topic.{is_wildcard, starts_with, topic_matches}
use minimosq_mqtt.Topic.Levels.{split, match_levels, match_loop-levels}

abbrev pub multi_level : Bytes
multi_level = b'#' ∷ []

abbrev pub single_level : Bytes
single_level = b'+' ∷ []

-- A list of filter levels matches a list of name levels: '+' takes exactly one level, '#' takes
-- all that remain and the parent, any other level takes itself.
pub data LevelsMatch : List Bytes → List Bytes → Type 0 where
  done : LevelsMatch [] []
  all_below : {l : Bytes} {ls ns : List Bytes} → l ≡ multi_level → LevelsMatch (l ∷ ls) ns
  any_one :
      {l n : Bytes} {ls ns : List Bytes}
      → l ≡ single_level
      → LevelsMatch ls ns
      → LevelsMatch (l ∷ ls) (n ∷ ns)
  same :
      {l n : Bytes} {ls ns : List Bytes} → l ≡ n → LevelsMatch ls ns → LevelsMatch (l ∷ ls) (n ∷ ns)

-- A '$' topic is not matched by a filter that starts with a wildcard [MQTT-4.7.2].
abbrev pub Hidden : Bytes → Bytes → Type 0
Hidden f name =
    (starts_with b'$' name ≡ true) × ((starts_with b'+' f ≡ true) ⊎ (starts_with b'#' f ≡ true))

abbrev pub TopicMatch : Bytes → Bytes → Type 0
TopicMatch f name = (¬ Hidden f name) × LevelsMatch (split f) (split name)

is_wildcard→eq : (c : ℕ) (l : Bytes) → is_wildcard c l ≡ true → l ≡ c ∷ []
is_wildcard→eq c [] e = cc
is_wildcard→eq c (x ∷ []) e = ground arith
is_wildcard→eq c (x ∷ y ∷ l) e = cc

match_levels→LevelsMatch : (ls ns : List Bytes) → match_levels ls ns ≡ true → LevelsMatch ls ns
unfolding match_levels
match_levels→LevelsMatch [] [] e = done
match_levels→LevelsMatch [] (n ∷ ns) e = cc
match_levels→LevelsMatch (l ∷ ls) [] e = all_below (is_wildcard→eq b'#' l (ground arith))
match_levels→LevelsMatch (l ∷ ls) (n ∷ ns) e = elim (Bool-cases (is_wildcard b'#' l)) [
  | inl all ↦ all_below (is_wildcard→eq b'#' l all)
  | inr one ↦
      let rest = match_levels→LevelsMatch ls ns (ground arith) in
      elim (Bool-cases (is_wildcard b'+' l)) [
        | inl plus ↦ any_one (is_wildcard→eq b'+' l plus) rest
        | inr plain ↦ same (view_eq→eq l n (ground arith)) rest
      ]
]

LevelsMatch→match_levels : {ls ns : List Bytes} → LevelsMatch ls ns → match_levels ls ns ≡ true
unfolding match_levels
LevelsMatch→match_levels done = refl
LevelsMatch→match_levels (all_below e) = rw e refl
LevelsMatch→match_levels (any_one {l} {n} e m) = rw e (ground (arith, LevelsMatch→match_levels m))
LevelsMatch→match_levels (same {l} {n} e m) =
    ground (arith, view_eq_refl l, LevelsMatch→match_levels m)

-- `topic_matches` decides the matching relation on levels, the rule for '$' topics included.
pub topic_matches-TopicMatch : (f name : Bytes) → (topic_matches f name ≡ true) ↔ TopicMatch f name
unfolding topic_matches
topic_matches-TopicMatch f name =
    let loop = match_loop-levels (suc (length f)) f (some name) (omega arith) in
    (
      λ e. (λ h. ground arith, match_levels→LevelsMatch _ _ (ground (arith, loop))),
      λ m. ground (arith, loop, LevelsMatch→match_levels m.1, m.0),
    )
