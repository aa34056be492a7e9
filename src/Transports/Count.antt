-- ===== src/Transports/Count.antt =====
-- Sums over what a transport did, for stream_server.hpp and pipe.hpp in include/minimosq/transports/posix.
use minimosq_mqtt.Prelude.{
  ℕ, zero, suc, ◌+◌, ◌≡◌, Bool, some, List, [], ◌∷◌, arith, if◌then◌else◌, set, get_elem?,
}

abbrev pub one_if : Bool → ℕ
one_if b = if b then 1 else 0

unfoldable pub sum_of : {A : Type 0} → (A → ℕ) → List A → ℕ
sum_of f [] = 0
sum_of f (x ∷ xs) = f x + sum_of f xs

pub sum_of-set :
    {A : Type 0} (f : A → ℕ) (xs : List A) (i : ℕ) (x y : A)
    → get_elem? xs i ≡ some x
    → sum_of f (set xs i y) + f x ≡ sum_of f xs + f y
unfolding sum_of
sum_of-set f [] i x y e = cc
sum_of-set f (z ∷ xs) zero x y e = let d : z ≡ x = ground (arith, e) in rw d (omega arith)
sum_of-set f (z ∷ xs) (suc i) x y e = omega (arith, sum_of-set f xs i x y e)
