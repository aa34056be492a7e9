-- ===== src/Core/Span.antt =====
-- include/minimosq/core/span.hpp and error.hpp. A `ByteSpan` or `StrView` is the list of its bytes.
use minimosq_mqtt.Prelude.{
  ℕ, ◌-◌, ◌≡◌, refl, ◌↔◌, Bool, true, false, [], ◌∷◌, arith, Bytes, ltb, ◌==◌, if◌then◌else◌, subst,
  length, take, drop,
}

-- `Err`
pub data Err : Type 0 where
  ok truncated malformed oversize capacity state : Err

abbrev pub is_ok : Err → Bool
is_ok ok = true
is_ok _ = false

-- `ByteSpan::slice`
pub slice : Bytes → ℕ → ℕ → Bytes
slice s offset count =
    if ltb (length s) offset
    then []
    else let avail = length s - offset in
      take (if ltb count avail then count else avail) (drop offset s)

-- The loop of `operator==`, over the bytes of the first view.
unfoldable pub same_bytes : Bytes → Bytes → Bool
same_bytes [] b = true
same_bytes (x ∷ a) [] = false
same_bytes (x ∷ a) (y ∷ b) = let rest = same_bytes a b in if x == y then rest else false

-- `operator==` of ByteSpan and of StrView
unfoldable pub view_eq : Bytes → Bytes → Bool
unfolding same_bytes
view_eq a b = if length a == length b then same_bytes a b else false

same_bytes→eq : (a b : Bytes) → length a ≡ length b → same_bytes a b ≡ true → a ≡ b
unfolding same_bytes
same_bytes→eq [] [] h e = refl
same_bytes→eq [] (y ∷ b) h e = absurd (omega arith)
same_bytes→eq (x ∷ a) [] h e = absurd (omega arith)
same_bytes→eq (x ∷ a) (y ∷ b) h e = ground (arith, same_bytes→eq a b)

same_bytes_refl : (a : Bytes) → same_bytes a a ≡ true
unfolding same_bytes
same_bytes_refl [] = refl
same_bytes_refl (x ∷ a) = ground (arith, same_bytes_refl a)

pub view_eq_refl : (a : Bytes) → view_eq a a ≡ true
unfolding view_eq
view_eq_refl a = ground (arith, same_bytes_refl a)

pub view_eq→eq : (a b : Bytes) → view_eq a b ≡ true → a ≡ b
unfolding view_eq
view_eq→eq a b h = ground (arith, same_bytes→eq a b)

-- The comparison of two views decides equality of their bytes.
pub view_eq_iff : (a b : Bytes) → (view_eq a b ≡ true) ↔ (a ≡ b)
view_eq_iff a b = (view_eq→eq a b, λ e. subst (λ c. view_eq a c ≡ true) e (view_eq_refl a))
