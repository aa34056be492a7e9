-- ===== src/Topic/Covering.antt =====
-- `topic_filter_covers` decides on the safe side: what a covered filter matches, the cover matches.
use minimosq_mqtt.Prelude.{
  ℕ, suc, ◌≡◌, refl, inl, inr, true, false, some, List, [], ◌∷◌, arith, ◌==◌, Bool-cases, Bytes,
  length,
}
use minimosq_mqtt.Core.Span.{view_eq→eq, view_eq_refl}
use minimosq_mqtt.Topic.{
  is_wildcard, starts_with, level, next_level, level_covered, topic_matches, topic_filter_covers,
}
use minimosq_mqtt.Topic.Levels.{
  split, levels_of, split-level, hit, match_levels, match_loop-levels, cover_levels,
  cover_loop-levels,
}

-- A level that a covered level takes is taken by the cover's level.
hit_covered : (c f n : Bytes) → level_covered c f ≡ true → hit f n ≡ true → hit c n ≡ true
hit_covered c f n e h = ground (arith, view_eq→eq c f, view_eq→eq f n, view_eq_refl n)

match_levels_covered :
    (cs fs ns : List Bytes)
    → cover_levels cs fs ≡ true
    → match_levels fs ns ≡ true
    → match_levels cs ns ≡ true
unfolding cover_levels match_levels
match_levels_covered [] [] ns e h = h
match_levels_covered [] (f ∷ fs) ns e h = cc
match_levels_covered (c ∷ cs) [] [] e h = ground arith
match_levels_covered (c ∷ cs) [] (n ∷ ns) e h = cc
match_levels_covered (c ∷ cs) (f ∷ fs) [] e h = ground arith
match_levels_covered (c ∷ cs) (f ∷ fs) (n ∷ ns) e h =
    ground (arith, hit_covered c f n, match_levels_covered cs fs ns)

wildcard_starts : (w : ℕ) (f : Bytes) → is_wildcard w (level f) ≡ true → starts_with w f ≡ true
unfolding level
wildcard_starts w [] e = cc
wildcard_starts w (x ∷ s) e = elim (Bool-cases (x == b'/')) [
  | inl slash ↦ absurd (ground arith)
  | inr other ↦ wildcard_starts_with w x (level s) (ground arith)
]
  where
    wildcard_starts_with : (w x : ℕ) (l : Bytes) → is_wildcard w (x ∷ l) ≡ true → (x == w) ≡ true
    wildcard_starts_with w x [] e = e
    wildcard_starts_with w x (y ∷ l) e = cc

same_start :
    (f n : Bytes) → level f ≡ level n → starts_with b'$' n ≡ true → starts_with b'$' f ≡ true
unfolding level
same_start f [] e h = cc
same_start [] (y ∷ n) e h = absurd (ground arith)
same_start (x ∷ f) (y ∷ n) e h = ground arith

-- A '$' topic that a filter with no leading wildcard matches is named by the filter's first level.
dollar_named :
    (f n : Bytes)
    → match_levels (split f) (split n) ≡ true
    → starts_with b'$' n ≡ true
    → starts_with b'+' f ≡ false
    → starts_with b'#' f ≡ false
    → starts_with b'$' f ≡ true
unfolding match_levels
dollar_named f n m h p q =
    let e : match_levels (level f ∷ levels_of (next_level f)) (level n ∷ levels_of (next_level n))
        ≡ true =
      rw (split-level f, split-level n) at m in
    ground (
      arith,
      wildcard_starts b'+' f,
      wildcard_starts b'#' f,
      view_eq→eq (level f) (level n),
      same_start f n,
    )

-- A cover that covers a filter matches every topic that the filter matches.
pub topic_filter_covers-matches :
    (cover f name : Bytes)
    → topic_filter_covers cover f ≡ true
    → topic_matches f name ≡ true
    → topic_matches cover name ≡ true
unfolding topic_matches topic_filter_covers
topic_filter_covers-matches cover f name e h = ground (
  arith,
  match_loop-levels (suc (length f)) f (some name) (omega arith),
  match_loop-levels (suc (length cover)) cover (some name) (omega arith),
  cover_loop-levels (suc (length cover)) cover (some f) (omega arith),
  match_levels_covered (split cover) (split f) (split name),
  dollar_named f name,
)

-- "+/#" matches every topic that "#" matches, yet is not held to cover it.
pub topic_filter_covers_incomplete :
    (name : Bytes)
    → topic_matches (b'#' ∷ []) name ≡ true
    → (topic_matches (b'+' ∷ b'/' ∷ b'#' ∷ []) name ≡ true)
      × (topic_filter_covers (b'+' ∷ b'/' ∷ b'#' ∷ []) (b'#' ∷ []) ≡ false)
unfolding topic_matches topic_filter_covers
topic_filter_covers_incomplete name h = (ground arith, refl)
