-- ===== src/Topic/Validity.antt =====
-- `topic_filter_valid` and `topic_name_valid` against the rules of [MQTT-4.7.1] on levels.
use minimosq_mqtt.Prelude.{
  ℕ, suc, ◌≤◌, ◌≡◌, refl, sym, ap, subst, ◌∙◌, ◌≢◌, ◌↔◌, Bool, true, false, not, ◌&&◌, ◌||◌, Option,
  none, some, List, [], ◌∷◌, ◌++◌, arith, ◌==◌, Bytes, All, length,
}
use minimosq_mqtt.Protocol.Utf8.{utf8_valid}
use minimosq_mqtt.Topic.{
  no_wildcards, topic_name_valid, inside_level, filter_scan, topic_filter_valid, is_wildcard,
  max_utf8_len, topic_matches, level, starts_with, match_loop, next_level,
}
use minimosq_mqtt.Core.Span.{view_eq→eq, view_eq_refl}
use minimosq_mqtt.Topic.Levels.{match_levels, match_loop-levels, split, split-level, levels_of}

abbrev pub is_literal : Bytes → Bool
is_literal [] = true
is_literal (c ∷ s) = not (c == b'#') && not (c == b'+') && is_literal s

-- '+' only as a whole level, '#' only as the whole last level.
abbrev pub levels_valid : List Bytes → Bool
levels_valid [] = true
levels_valid (l ∷ []) = is_literal l || is_wildcard b'+' l || is_wildcard b'#' l
levels_valid (l ∷ m ∷ ls) = (is_literal l || is_wildcard b'+' l) && levels_valid (m ∷ ls)

-- The same from the middle of a level on, where only a literal may stand.
abbrev inside_valid : List Bytes → Bool
inside_valid [] = true
inside_valid (l ∷ []) = is_literal l
inside_valid (l ∷ m ∷ ls) = is_literal l && levels_valid (m ∷ ls)

abbrev tail_valid : Bool → List Bytes → Bool
tail_valid true ls = inside_valid ls
tail_valid false ls = levels_valid ls

filter_scan-levels :
    (prev : Option ℕ) (s : Bytes) → filter_scan prev s ≡ tail_valid (inside_level prev) (split s)
unfolding filter_scan split
filter_scan-levels none [] = refl
filter_scan-levels (some p) [] = ground arith
filter_scan-levels none (c ∷ []) = ground arith
filter_scan-levels (some p) (c ∷ []) = ground arith
filter_scan-levels none (c ∷ y ∷ s) =
    rw (split-level s) (ground (arith, filter_scan-levels (some c) (y ∷ s), split-level s))
filter_scan-levels (some p) (c ∷ y ∷ s) =
    rw (split-level s) (ground (arith, filter_scan-levels (some c) (y ∷ s), split-level s))

-- A filter is accepted exactly when it is not empty, at most 65535 bytes, well-formed UTF-8, and
-- its wildcards are whole levels, # only the last one.
pub topic_filter_valid-levels :
    (f : Bytes)
    → (topic_filter_valid f ≡ true) ↔ (
        (f ≢ [])
        × (length f ≤ max_utf8_len)
        × (utf8_valid f ≡ true)
        × (levels_valid (split f) ≡ true))
unfolding topic_filter_valid
topic_filter_valid-levels [] = (λ e. cc, λ h. absurd (h.0 refl))
topic_filter_valid-levels (c ∷ s) = (
  λ e. (
    λ nil. cc,
    ground (arith, filter_scan-levels none (c ∷ s)),
    ground (arith, filter_scan-levels none (c ∷ s)),
    ground (arith, filter_scan-levels none (c ∷ s)),
  ),
  λ h. ground (arith, filter_scan-levels none (c ∷ s)),
)

-- A topic name is a filter without wildcards.
no_wildcards-levels : (s : Bytes) → no_wildcards s ≡ true → All (λ l. is_literal l ≡ true) (split s)
unfolding no_wildcards split
no_wildcards-levels [] e = (refl, tt)
no_wildcards-levels (c ∷ s) e =
    rw (split-level s) (ground (arith, no_wildcards-levels s, split-level s))

literals_valid : (ls : List Bytes) → All (λ l. is_literal l ≡ true) ls → levels_valid ls ≡ true
literals_valid [] h = refl
literals_valid (l ∷ []) h = ground arith
literals_valid (l ∷ m ∷ ls) h = ground (arith, literals_valid (m ∷ ls))

-- A literal level is no wildcard.
literal_plain :
    (l : Bytes) → is_literal l ≡ true → (is_wildcard b'#' l ≡ false) × (is_wildcard b'+' l ≡ false)
literal_plain [] h = (refl, refl)
literal_plain (c ∷ []) h = ground arith
literal_plain (c ∷ d ∷ l) h = (refl, refl)

literals_match_self :
    (ls : List Bytes) → All (λ l. is_literal l ≡ true) ls → match_levels ls ls ≡ true
unfolding match_levels
literals_match_self [] h = refl
literals_match_self (l ∷ ls) h =
    ground (arith, literal_plain l h.0, view_eq_refl l, literals_match_self ls)

literals_match_only :
    (ls ns : List Bytes) → All (λ l. is_literal l ≡ true) ls → match_levels ls ns ≡ true → ls ≡ ns
unfolding match_levels
literals_match_only [] [] h e = refl
literals_match_only [] (n ∷ ns) h e = cc
literals_match_only (l ∷ ls) [] h e = ground (arith, literal_plain l h.0)
literals_match_only (l ∷ ls) (n ∷ ns) h e =
    ground (arith, literal_plain l h.0, view_eq→eq l n, literals_match_only ls ns)

abbrev join : List Bytes → Bytes
join [] = []
join (l ∷ []) = l
join (l ∷ m ∷ ls) = l ++ b'/' ∷ join (m ∷ ls)

join-cons_head : (c : ℕ) (l : Bytes) (ls : List Bytes) → join ((c ∷ l) ∷ ls) ≡ c ∷ join (l ∷ ls)
join-cons_head c l [] = refl
join-cons_head c l (m ∷ ls) = refl

join-split : (s : Bytes) → join (split s) ≡ s
unfolding split
join-split [] = refl
join-split (c ∷ s) =
    let whole : join (level s ∷ levels_of (next_level s)) ≡ s = rw split-level at (join-split s) in
    rw (split-level s)
      (ground (arith, whole, join-cons_head c (level s) (levels_of (next_level s))))

split-injective : (a b : Bytes) → split a ≡ split b → a ≡ b
split-injective a b e = sym (join-split a) ∙ ap join e ∙ join-split b

no_wildcard_start :
    (s : Bytes)
    → no_wildcards s ≡ true
    → (starts_with b'+' s ≡ false) × (starts_with b'#' s ≡ false)
unfolding no_wildcards
no_wildcard_start [] h = (refl, refl)
no_wildcard_start (c ∷ s) h = ground arith

-- A valid topic name, taken as a filter, is valid and matches that topic alone.
pub topic_name_matches_itself :
    (name other : Bytes)
    → topic_name_valid name ≡ true
    → (topic_filter_valid name ≡ true) × ((topic_matches name other ≡ true) ↔ (name ≡ other))
topic_name_matches_itself name other h = (
  unfold topic_name_valid topic_filter_valid in
      ground (arith, literal, filter_scan-levels none name, literals_valid (split name)),
  (
    λ e. split-injective name other (
        literals_match_only (split name) (split other) literal
          (unfold topic_matches in ground (arith, loop name other))),
    λ e.
        subst (λ t. topic_matches name t ≡ true) e
          (unfold topic_matches in
            ground (arith, plain, loop name name, literals_match_self (split name) literal)),
  ),
)
  where
    bare : no_wildcards name ≡ true
    bare = unfold topic_name_valid in ground arith

    literal : All (λ l. is_literal l ≡ true) (split name)
    literal = no_wildcards-levels name bare

    plain : (starts_with b'+' name ≡ false) × (starts_with b'#' name ≡ false)
    plain = no_wildcard_start name bare

    loop : (f n : Bytes) → match_loop (suc (length f)) f (some n) ≡ match_levels (split f) (split n)
    loop f n = match_loop-levels (suc (length f)) f (some n) (omega arith)
