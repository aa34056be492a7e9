-- ===== src/Topic/Levels.antt =====
-- A topic as its list of levels, and the two matching loops as recursions on such lists.
use minimosq_mqtt.Prelude.{
  ℕ, zero, suc, ◌<◌, ◌≡◌, refl, sym, inl, inr, Bool, true, false, ◌||◌, Option, none, some, List,
  [], ◌∷◌, arith, ◌==◌, if◌then◌else◌, Option-cases, Bytes, length,
}
use minimosq_mqtt.Core.Span.{view_eq}
use minimosq_mqtt.Topic.{
  is_wildcard, level, next_level, after_level, match_loop, cover_loop, level_covered,
}

abbrev pub cons_head : ℕ → List Bytes → List Bytes
cons_head c [] = (c ∷ []) ∷ []
cons_head c (l ∷ ls) = (c ∷ l) ∷ ls

-- Splits a view at every '/'.
unfoldable pub split : Bytes → List Bytes
split [] = [] ∷ []
split (c ∷ s) = if c == b'/' then [] ∷ split s else cons_head c (split s)

-- The levels that are left; none once the view is exhausted.
abbrev pub levels_of : Option Bytes → List Bytes
levels_of none = []
levels_of (some s) = split s

pub split-level : (s : Bytes) → split s ≡ level s ∷ levels_of (next_level s)
unfolding split level next_level
split-level [] = refl
split-level (c ∷ s) = ground (arith, split-level s)

pub next_level_shorter : (s r : Bytes) → next_level s ≡ some r → length r < length s
unfolding next_level
next_level_shorter [] r e = cc
next_level_shorter (c ∷ s) r e = ground (arith, next_level_shorter s r)

abbrev pub hit : Bytes → Bytes → Bool
hit fl nl = is_wildcard b'+' fl || view_eq fl nl

-- `topic_matches` on lists of levels.
unfoldable pub match_levels : List Bytes → List Bytes → Bool
match_levels [] [] = true
match_levels [] (n ∷ ns) = false
match_levels (l ∷ ls) ns = elim (is_wildcard b'#' l) [
  | true ↦ true
  | false ↦ elim ns [
    | [] ↦ false
    | n ∷ ns' ↦ elim (hit l n) [ false ↦ false | true ↦ match_levels ls ns' ]
  ]
]

-- `topic_filter_covers` on lists of levels.
unfoldable pub cover_levels : List Bytes → List Bytes → Bool
cover_levels [] [] = true
cover_levels [] (f ∷ fs) = false
cover_levels (l ∷ ls) fs = elim (is_wildcard b'#' l) [
  | true ↦ true
  | false ↦ elim fs [
    | [] ↦ false
    | f ∷ fs' ↦ elim (level_covered l f) [ false ↦ false | true ↦ cover_levels ls fs' ]
  ]
]

-- The end of a round agrees with the recursion on levels if the later rounds do.
module _ (go : Bytes → Option Bytes → Bool) (spec : List Bytes → List Bytes → Bool)
    (bound : ℕ) where
  after_level-levels :
      spec [] [] ≡ true
      → ((n : Bytes) (ns : List Bytes) → spec [] (n ∷ ns) ≡ false)
      → ((r : Bytes) (n : Option Bytes) → length r < bound → go r n ≡ spec (split r) (levels_of n))
      → (f : Bytes) (n : Option Bytes) → length f < suc bound
      → after_level (next_level f) n go ≡ spec (levels_of (next_level f)) (levels_of n)
  after_level-levels nil cons later f n h = elim (Option-cases (next_level f)) [
    | inl e ↦ rw e (ended n)
    | inr (r, e) ↦ rw e (later r n (omega (arith, next_level_shorter f r e)))
  ]
    where
      ended : (n : Option Bytes) → after_level none n go ≡ spec [] (levels_of n)
      ended none = sym nil
      ended (some m) = rw (split-level m) (sym (cons _ _))

pub match_loop-levels :
    (fuel : ℕ) (f : Bytes) (n : Option Bytes)
    → length f < fuel
    → match_loop fuel f n ≡ match_levels (split f) (levels_of n)
unfolding match_loop match_levels
match_loop-levels zero f n h = absurd (omega arith)
match_loop-levels (suc fuel) f none h = rw (split-level f) (ground arith)
match_loop-levels (suc fuel) f (some name) h =
    let later =
      after_level-levels (match_loop fuel) match_levels fuel refl (λ n ns. refl)
        (match_loop-levels fuel) f (next_level name) h in
    rw (split-level f, split-level name) (ground (arith, later))

pub cover_loop-levels :
    (fuel : ℕ) (c : Bytes) (f : Option Bytes)
    → length c < fuel
    → cover_loop fuel c f ≡ cover_levels (split c) (levels_of f)
unfolding cover_loop cover_levels
cover_loop-levels zero c f h = absurd (omega arith)
cover_loop-levels (suc fuel) c none h = rw (split-level c) (ground arith)
cover_loop-levels (suc fuel) c (some filter) h =
    let later =
      after_level-levels (cover_loop fuel) cover_levels fuel refl (λ n ns. refl)
        (cover_loop-levels fuel) c (next_level filter) h in
    rw (split-level c, split-level filter) (ground (arith, later))
