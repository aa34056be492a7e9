-- ===== src/Transports/Rounds.antt =====
-- include/minimosq/transports/posix/stream_server.hpp and pipe.hpp: loops whose rounds end in `continue` or
-- in `return`.
use minimosq_mqtt.Prelude.{ℕ, zero, suc, ◌≡◌, refl, subst, ◌⊎◌, inl, inr}

pub data Round (S : Type 0) : Type 0 where
  go_on : S → Round S
  stop : S → Round S

abbrev pub outcome : {S : Type 0} → Round S → S
outcome (go_on s) = s
outcome (stop s) = s

pub Round-cases : {S : Type 0} (r : Round S) → ((s : S) × (r ≡ go_on s)) ⊎ ((s : S) × (r ≡ stop s))
Round-cases (go_on s) = inl (s, refl)
Round-cases (stop s) = inr (s, refl)

-- At most so many rounds.
unfoldable pub rounds : {S : Type 0} → ℕ → (S → Round S) → S → S
rounds zero f s = s
rounds (suc n) f s = elim (f s) [ go_on t ↦ rounds n f t | stop t ↦ t ]

pub rounds_keep :
    {S : Type 0} (P : S → Type 0) (n : ℕ) (f : S → Round S) (s : S)
    → ((x : S) → P x → P (outcome (f x)))
    → P s
    → P (rounds n f s)
unfolding rounds
rounds_keep P zero f s step h = h
rounds_keep P (suc n) f s step h = elim (Round-cases (f s)) [
  | inl (x, r) ↦ rw (r, rounds) (rounds_keep P n f x step (subst (λ y. P (outcome y)) r (step s h)))
  | inr (x, r) ↦ rw (r, rounds) (subst (λ y. P (outcome y)) r (step s h))
]
