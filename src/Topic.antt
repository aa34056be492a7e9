-- ===== src/Topic.antt =====
-- include/minimosq/topic.hpp: topic names, topic filters and wildcard matching.
-- An index into a view is the suffix that starts there; the level [fi, fe) is what `level` takes off it.
pub mod Levels
pub mod Matching
pub mod Covering
pub mod Validity
use minimosq_mqtt.Prelude.{
  ℕ, zero, suc, ◌+◌, ◌/◌, Bool, true, false, not, ◌&&◌, ◌||◌, Option, none, some, [], ◌∷◌, ltb,
  ◌==◌, if◌then◌else◌, Bytes, length,
}
use minimosq_mqtt.Core.Span.{view_eq}
use minimosq_mqtt.Protocol.Constants.{max_utf8_len}
use minimosq_mqtt.Protocol.Utf8.{utf8_valid}

abbrev pub empty : Bytes → Bool
empty [] = true
empty (c ∷ s) = false

-- `name[0] == c`, asked only of a view that is not empty
abbrev pub starts_with : ℕ → Bytes → Bool
starts_with c [] = false
starts_with c (x ∷ s) = x == c

-- The loop of `topic_name_valid`
unfoldable pub no_wildcards : Bytes → Bool
no_wildcards [] = true
no_wildcards (c ∷ s) = let rest = no_wildcards s in if c == b'#' || c == b'+' then false else rest

unfoldable pub topic_name_valid : Bytes → Bool
unfolding no_wildcards
topic_name_valid name =
    if empty name || ltb max_utf8_len (length name) || not (utf8_valid name)
    then false
    else no_wildcards name

-- `i != 0 && f[i - 1] != '/'`, from the character before the index
abbrev inside_level : Option ℕ → Bool
inside_level none = false
inside_level (some p) = not (p == b'/')

-- `i + 1 != f.len && f[i + 1] != '/'`
abbrev level_goes_on : Bytes → Bool
level_goes_on [] = false
level_goes_on (c ∷ s) = not (c == b'/')

-- The loop of `topic_filter_valid`; the first argument is the character before the index.
unfoldable pub filter_scan : Option ℕ → Bytes → Bool
filter_scan prev [] = true
filter_scan prev (c ∷ s) =
    let rest = filter_scan (some c) s in
    if c == b'#'
    then if not (empty s) then false else if inside_level prev then false else rest
    else if c == b'+'
    then if inside_level prev then false else if level_goes_on s then false else rest
    else rest

unfoldable pub topic_filter_valid : Bytes → Bool
unfolding filter_scan
topic_filter_valid f =
    if empty f || ltb max_utf8_len (length f) || not (utf8_valid f)
    then false
    else filter_scan none f

-- The level that starts here: `while (fe < len && filter[fe] != '/') ++fe`.
unfoldable pub level : Bytes → Bytes
level [] = []
level (c ∷ s) = let rest = c ∷ level s in if c == b'/' then [] else rest

-- What follows the level's '/'; `none` is `fe == len`.
unfoldable pub next_level : Bytes → Option Bytes
next_level [] = none
next_level (c ∷ s) = let rest = next_level s in if c == b'/' then some s else rest

-- `fe == fi + 1 && filter[fi] == c`
abbrev pub is_wildcard : ℕ → Bytes → Bool
is_wildcard c (x ∷ []) = x == c
is_wildcard c (x ∷ y ∷ s) = false
is_wildcard c [] = false

-- The end of a round: both must end together, or go on.
abbrev after_level : Option Bytes → Option Bytes → (Bytes → Option Bytes → Bool) → Bool
after_level none none go = true
after_level none (some n) go = false
after_level (some f) n go = go f n

-- The `while (true)` of `topic_matches`. `none` for the name is `!name_active`.
unfoldable pub match_loop : ℕ → Bytes → Option Bytes → Bool
match_loop zero f n = false
match_loop (suc fuel) f n = elim (is_wildcard b'#' (level f)) [
  | true ↦ true
  | false ↦ elim n [
    | none ↦ false
    | some name ↦ elim (is_wildcard b'+' (level f) || view_eq (level f) (level name)) [
      | false ↦ false
      | true ↦ after_level (next_level f) (next_level name) (match_loop fuel)
    ]
  ]
]

-- Each round takes a level off the filter, so its length bounds the rounds.
unfoldable pub topic_matches : Bytes → Bytes → Bool
unfolding match_loop level next_level
topic_matches f name =
    if starts_with b'$' name && (starts_with b'+' f || starts_with b'#' f)
    then false
    else match_loop (suc (length f)) f (some name)

-- One round's test of `topic_filter_covers` on a cover level and a filter level.
abbrev level_covered : Bytes → Bytes → Bool
level_covered cl fl =
    let c_plus = is_wildcard b'+' cl in
    let f_plus = is_wildcard b'+' fl in
    if is_wildcard b'#' fl
    then false
    else if f_plus && not c_plus
    then false
    else if not f_plus && not c_plus
    then view_eq cl fl
    else true

-- The `while (true)` of `topic_filter_covers`. `none` for the filter is `!filter_active`.
unfoldable pub cover_loop : ℕ → Bytes → Option Bytes → Bool
cover_loop zero c f = false
cover_loop (suc fuel) c f = elim (is_wildcard b'#' (level c)) [
  | true ↦ true
  | false ↦ elim f [
    | none ↦ false
    | some filter ↦ elim (level_covered (level c) (level filter)) [
      | false ↦ false
      | true ↦ after_level (next_level c) (next_level filter) (cover_loop fuel)
    ]
  ]
]

unfoldable pub topic_filter_covers : Bytes → Bytes → Bool
unfolding cover_loop level next_level
topic_filter_covers cover f =
    if starts_with b'$' f && (starts_with b'+' cover || starts_with b'#' cover)
    then false
    else cover_loop (suc (length cover)) cover (some f)
