-- ===== src/Broker/ClientId/Fresh.antt =====
-- include/minimosq/broker/broker.hpp: the search for an id that no session has, `generate_client_id`.
use minimosq_mqtt.Prelude.{
  ℕ, zero, suc, ◌+◌, ◌-◌, ◌*◌, ◌/◌, ◌%◌, ◌^◌, ◌≤◌, ◌<◌, ◌≡◌, refl, sym, ap, ◌∙◌, inl, inr, Bool,
  true, false, ◌&&◌, Option, none, some, List, [], ◌∷◌, arith, ltb, leb, ◌==◌, if◌then◌else◌,
  Bool-cases, Option-cases, Bytes, length, drop,
}
use native.Mathlib.Omega.{pow_step}
use minimosq_mqtt.Core.Span.{view_eq, view_eq_iff}
use minimosq_mqtt.Core.Pool.{find, find_slot}
use minimosq_mqtt.Broker.Session.{Session}
use minimosq_mqtt.Broker.State.{Broker}
use minimosq_mqtt.Broker.ClientId.{
  digits, auto_id, find_client, id_search, generate_client_id, uses_reserved_prefix,
  starts_with_all,
}

-- The number that digits stand for, behind those that were read.
read_digits : ℕ → Bytes → ℕ
read_digits v [] = v
read_digits v (c ∷ cs) = read_digits (v * 10 + (c - b'0')) cs

read_digits-digits :
    (n v : ℕ) (acc : Bytes) → v < 10 ^ n → read_digits 0 (digits n v acc) ≡ read_digits v acc
unfolding digits read_digits
read_digits-digits zero v acc h =
    let none_left : v ≡ 0 = omega arith in ap (λ n. read_digits n acc) (sym none_left)
read_digits-digits (suc n) v acc h =
    let digit : 0 * 10 + (48 + v % 10 - 48) ≡ v % 10 = omega arith in
    let whole : v / 10 * 10 + (48 + v % 10 - 48) ≡ v = omega arith in
    let fewer : v / 10 < 10 ^ n = omega (arith, pow_step 10 n, h) in
    elim (Bool-cases (v / 10 == 0)) [
      | inl e ↦
          let small : 0 * 10 + (48 + v % 10 - 48) ≡ v = ground arith in
          rw e (ap (λ m. read_digits m acc) small)
      | inr e ↦ rw e (
          read_digits-digits n (v / 10) ((48 + v % 10) ∷ acc) fewer
          ∙ ap (λ m. read_digits m acc) whole)
    ]

-- The number in a client id.
abbrev number : Bytes → ℕ
number id = read_digits 0 (drop 4 id)

number-auto_id : (n : ℕ) → n < 2 ^ 16 → number (auto_id n) ≡ n
unfolding auto_id read_digits
number-auto_id n h = read_digits-digits 5 n [] (omega arith)

-- How many increments lead from one counter to another.
abbrev distance : ℕ → ℕ → ℕ
distance counter n = if ltb counter n then n - counter else n + 65536 - counter

abbrev ahead : ℕ → ℕ → ℕ → Bool
ahead counter n v = ltb v 65536 && leb (distance counter v) n

module _ {A : Type 0} where
  -- The sessions whose id has one of the next n numbers.
  count_ahead : ℕ → ℕ → List (Option (Session A)) → ℕ
  count_ahead counter n [] = 0
  count_ahead counter n (none ∷ slots) = count_ahead counter n slots
  count_ahead counter n (some s ∷ slots) =
      (if ahead counter n (number s.client_id) then 1 else 0) + count_ahead counter n slots

  count_ahead-length :
      (c n : ℕ) (slots : List (Option (Session A))) → count_ahead c n slots ≤ length slots
  unfolding count_ahead
  count_ahead-length c n [] = omega arith
  count_ahead-length c n (none ∷ slots) = omega (arith, count_ahead-length c n slots)
  count_ahead-length c n (some s ∷ slots) = ground (arith, count_ahead-length c n slots)

ahead_later :
    (c n v : ℕ)
    → c < 2 ^ 16
    → n < 65535
    → ahead ((c + 1) % 2 ^ 16) n v ≡ true
    → ahead c (suc n) v ≡ true
ahead_later c n v h k e = ground arith

ahead_next :
    (c n : ℕ)
    → c < 2 ^ 16
    → n < 65535
    → (ahead c (suc n) ((c + 1) % 2 ^ 16) ≡ true)
      × (ahead ((c + 1) % 2 ^ 16) n ((c + 1) % 2 ^ 16) ≡ false)
ahead_next c n h k = ground arith

module _ {A : Type 0} where
  count_ahead_later :
      (c n : ℕ) (slots : List (Option (Session A)))
      → c < 2 ^ 16
      → n < 65535
      → count_ahead ((c + 1) % 2 ^ 16) n slots ≤ count_ahead c (suc n) slots
  unfolding count_ahead
  count_ahead_later c n [] h k = omega arith
  count_ahead_later c n (none ∷ slots) h k = omega (arith, count_ahead_later c n slots h k)
  count_ahead_later c n (some s ∷ slots) h k =
      ground (arith, ahead_later c n (number s.client_id) h k, count_ahead_later c n slots h k)

  count_ahead_next :
      (c n : ℕ) (slots : List (Option (Session A))) (i : ℕ)
      → c < 2 ^ 16
      → n < 65535
      → find_slot (λ s. view_eq s.client_id (auto_id ((c + 1) % 2 ^ 16))) slots ≡ some i
      → count_ahead ((c + 1) % 2 ^ 16) n slots < count_ahead c (suc n) slots
  unfolding count_ahead find_slot
  count_ahead_next c n [] i h k e = cc
  count_ahead_next c n (none ∷ slots) i h k e =
      elim (Option-cases
        (find_slot (λ s. view_eq s.client_id (auto_id ((c + 1) % 2 ^ 16))) slots)) [
          | inl d ↦ absurd (grind (arith, e, d))
          | inr (j, d) ↦ count_ahead_next c n slots j h k d
        ]
  count_ahead_next c n (some s ∷ slots) i h k e =
      let next = (c + 1) % 2 ^ 16 in
      elim (Bool-cases (view_eq s.client_id (auto_id next))) [
        | inl same ↦
            let met : number s.client_id ≡ next =
              ap number ((view_eq_iff s.client_id (auto_id next)).0 same)
              ∙ number-auto_id next (omega arith) in
            let both = ahead_next c n h k in
            rw met (rw (both.0, both.1) (omega (arith, count_ahead_later c n slots h k)))
        | inr other ↦
            elim (Option-cases (find_slot (λ t. view_eq t.client_id (auto_id next)) slots)) [
              | inl d ↦ absurd (grind (arith, e, d, other))
              | inr (j, d) ↦ ground (
                arith,
                ahead_later c n (number s.client_id) h k,
                count_ahead_next c n slots j h k d,
              )
            ]
      ]

auto_id-IsReserved : (n : ℕ) → uses_reserved_prefix (auto_id n) ≡ true
unfolding uses_reserved_prefix auto_id starts_with_all
auto_id-IsReserved n = ground arith

module _ {T A : Type 0} where
  -- The loop ends at an id that no session has.
  id_search_total :
      (n c : ℕ) (b : Broker T A)
      → c < 2 ^ 16
      → n ≤ 65535
      → count_ahead c n b.sessions.slots < n
      → (v : ℕ) × (id_search n c b ≡ some v) × (v < 2 ^ 16) × (find_client (auto_id v) b ≡ none)
  unfolding id_search find_client find
  id_search_total zero c b h k few = absurd (omega arith)
  id_search_total (suc n) c b h k few =
      let next = (c + 1) % 2 ^ 16 in
      elim (Option-cases (find_slot (λ s. view_eq s.client_id (auto_id next)) b.sessions.slots)) [
        | inl e ↦ (next, rw (e, id_search) refl, omega arith, e)
        | inr (i, e) ↦
            let fewer = count_ahead_next c n b.sessions.slots i h (omega arith) e in
            let (v, found, small, fresh) =
              id_search_total n next b (omega arith) (omega arith) (omega (arith, fewer, few)) in
            (v, rw (e, id_search) found, small, fresh)
      ]

  -- In a broker of fewer than 65535 session slots and with a 16-bit counter, the search of `generate_client_id`
  -- ends: it gives an id with the reserved prefix that no session has, and only the counter changes, which
  -- stays one of 16 bits.
  pub generate_client_id-IsFresh :
      (b : Broker T A)
      → b.auto_id_counter < 2 ^ 16
      → length b.sessions.slots < 65535
      → (n : ℕ) × (generate_client_id b ≡ some (auto_id n, record b { auto_id_counter = n }))
        × (n < 2 ^ 16)
        × (find_client (auto_id n) b ≡ none)
        × (uses_reserved_prefix (auto_id n) ≡ true)
  unfolding generate_client_id
  generate_client_id-IsFresh b h few =
      let slots = b.sessions.slots in
      let (n, found, small, fresh) =
        id_search_total (suc (length slots)) b.auto_id_counter b h (omega arith)
          (omega (arith, count_ahead-length b.auto_id_counter (suc (length slots)) slots)) in
      (n, rw (found, generate_client_id) refl, small, fresh, auto_id-IsReserved n)
