-- ===== src/Protocol/Utf8/Decoding.antt =====
-- One character of UTF-8: the encoding of a scalar value, and what a round of `utf8_valid` accepts.
use minimosq_mqtt.Prelude.{
  ℕ, ◌+◌, ◌-◌, ◌*◌, ◌/◌, ◌%◌, ◌^◌, ◌<◌, ◌≤◌, ◌≡◌, ◌⊎◌, ◌&&◌, none, some, List, [], ◌∷◌, ◌++◌, arith,
  ltb, leb, ◌==◌, bit_and, if◌then◌else◌, Bytes, and_3f, and_c0, and_1f, and_e0, and_0f, and_f0,
  and_07, and_f8, bit_or-shift, All, IsByte, Bool-cases, inl, inr,
}
use minimosq_mqtt.Protocol.Utf8.{lead, shift_in, multibyte, overlong, out_of_range, next_char}

-- A Unicode scalar value that MQTT allows in a string [MQTT-1.5.3].
pub record IsScalar (cp : ℕ) : Type 0 where
  pub nonzero : 0 < cp
  pub in_range : cp ≤ 0x10ffff
  pub no_surrogate : (cp < 0xd800) ⊎ (0xdfff < cp)

-- The UTF-8 encoding form of a scalar value.
abbrev pub encode : ℕ → Bytes
encode cp =
    if ltb cp 0x80
    then cp ∷ []
    else if ltb cp 0x800
    then (0xc0 + cp / 64) ∷ (0x80 + cp % 64) ∷ []
    else if ltb cp 0x10000
    then (0xe0 + cp / 4096) ∷ (0x80 + cp / 64 % 64) ∷ (0x80 + cp % 64) ∷ []
    else (0xf0 + cp / 262144)
      ∷ (0x80 + cp / 4096 % 64)
      ∷ (0x80 + cp / 64 % 64)
      ∷ (0x80 + cp % 64)
      ∷ []

abbrev pub encode_all : List ℕ → Bytes
encode_all [] = []
encode_all (cp ∷ cps) = encode cp ++ encode_all cps

pub shift_in_value : (cp b : ℕ) → cp < 2 ^ 20 → b < 256 → shift_in cp b ≡ cp * 64 + b % 64
unfolding shift_in
shift_in_value cp b h hb = ground (arith, and_3f b, bit_or-shift 6 cp (b % 64))

pub lead_value :
    (c : ℕ)
    → c < 256
    → lead c ≡ (
        if ltb c 0xc0
        then none
        else if ltb c 0xe0
        then some (1, c - 0xc0)
        else if ltb c 0xf0
        then some (2, c - 0xe0)
        else if ltb c 0xf8
        then some (3, c - 0xf0)
        else none)
unfolding lead
lead_value c h = ground (arith, and_e0 c, and_1f c, and_f0 c, and_0f c, and_f8 c, and_07 c)

pub is_continuation : (b : ℕ) → b < 256 → (bit_and b 0xc0 == 0x80) ≡ (leb 0x80 b && ltb b 0xc0)
is_continuation b h = ground (arith, and_c0 b)

-- What one accepted sequence of two, three or four bytes says of its bytes.
accept_two :
    (x b : ℕ) (rest r : Bytes)
    → x < 32
    → b < 256
    → multibyte (some (1, x)) (b ∷ rest) ≡ some r
    → (rest ≡ r) × (0x80 ≤ b) × (b < 0xc0) × (0x80 ≤ x * 64 + b % 64)
unfolding multibyte overlong out_of_range
accept_two x b rest r hx hb e = ground (arith, shift_in_value x b, is_continuation b hb)

accept_three :
    (x b c : ℕ) (rest r : Bytes)
    → x < 16
    → b < 256
    → c < 256
    → multibyte (some (2, x)) (b ∷ c ∷ rest) ≡ some r
    → (rest ≡ r)
      × (0x80 ≤ b)
      × (b < 0xc0)
      × (0x80 ≤ c)
      × (c < 0xc0)
      × IsScalar ((x * 64 + b % 64) * 64 + c % 64)
      × (0x800 ≤ (x * 64 + b % 64) * 64 + c % 64)
unfolding multibyte overlong out_of_range
accept_three x b c rest r hx hb hc e = ground (
  arith,
  shift_in_value x b,
  shift_in_value (x * 64 + b % 64) c,
  is_continuation b hb,
  is_continuation c hc,
)

accept_four :
    (x b c d : ℕ) (rest r : Bytes)
    → x < 8
    → b < 256
    → c < 256
    → d < 256
    → multibyte (some (3, x)) (b ∷ c ∷ d ∷ rest) ≡ some r
    → (rest ≡ r)
      × (0x80 ≤ b)
      × (b < 0xc0)
      × (0x80 ≤ c)
      × (c < 0xc0)
      × (0x80 ≤ d)
      × (d < 0xc0)
      × IsScalar (((x * 64 + b % 64) * 64 + c % 64) * 64 + d % 64)
      × (0x10000 ≤ ((x * 64 + b % 64) * 64 + c % 64) * 64 + d % 64)
unfolding multibyte overlong out_of_range
accept_four x b c d rest r hx hb hc hd e = ground (
  arith,
  shift_in_value x b,
  shift_in_value (x * 64 + b % 64) c,
  shift_in_value ((x * 64 + b % 64) * 64 + c % 64) d,
  is_continuation b hb,
  is_continuation c hc,
  is_continuation d hd,
)

-- One character off the front: what a round of the loop accepts is the encoding of a scalar value.
abbrev Decoded : ℕ → Bytes → Bytes → Type 0
Decoded c rest r = (cp : ℕ) × IsScalar cp × (c ∷ rest ≡ encode cp ++ r) × All IsByte r

next_two :
    (c : ℕ) (rest r : Bytes)
    → 0xc0 ≤ c
    → c < 0xe0
    → All IsByte rest
    → next_char c rest ≡ some r
    → Decoded c rest r
unfolding next_char multibyte
next_two c [] r lo hi h e = absurd (ground (arith, lead_value c))
next_two c (b ∷ rest) r lo hi h e =
    let facts = accept_two (c - 0xc0) b rest r (omega arith) h.0 (ground (arith, lead_value c)) in
    let cp : ℕ = (c - 0xc0) * 64 + b % 64 in
    (
      cp,
      record { nonzero = omega arith; in_range = omega arith; no_surrogate = inl (omega arith) },
      ground arith,
      ground arith,
    )

next_three :
    (c : ℕ) (rest r : Bytes)
    → 0xe0 ≤ c
    → c < 0xf0
    → All IsByte rest
    → next_char c rest ≡ some r
    → Decoded c rest r
unfolding next_char multibyte
next_three c [] r lo hi h e = absurd (ground (arith, lead_value c))
next_three c (b ∷ []) r lo hi h e = absurd (ground (arith, lead_value c))
next_three c (b ∷ d ∷ rest) r lo hi h e =
    let facts =
      accept_three (c - 0xe0) b d rest r (omega arith) h.0 h.1.0 (ground (arith, lead_value c)) in
    let cp : ℕ = ((c - 0xe0) * 64 + b % 64) * 64 + d % 64 in
    (cp, facts.5, ground arith, ground arith)

next_four :
    (c : ℕ) (rest r : Bytes)
    → 0xf0 ≤ c
    → c < 0xf8
    → All IsByte rest
    → next_char c rest ≡ some r
    → Decoded c rest r
unfolding next_char multibyte
next_four c [] r lo hi h e = absurd (ground (arith, lead_value c))
next_four c (a ∷ []) r lo hi h e = absurd (ground (arith, lead_value c))
next_four c (a ∷ b ∷ []) r lo hi h e = absurd (ground (arith, lead_value c))
next_four c (a ∷ b ∷ d ∷ rest) r lo hi h e =
    let facts =
      accept_four (c - 0xf0) a b d rest r (omega arith) h.0 h.1.0 h.1.1.0
        (ground (arith, lead_value c)) in
    let cp : ℕ = (((c - 0xf0) * 64 + a % 64) * 64 + b % 64) * 64 + d % 64 in
    (cp, facts.7, ground arith, ground arith)

-- A byte below 0x80 stands for itself.
next_one :
    (c : ℕ) (rest r : Bytes)
    → c < 0x80
    → All IsByte rest
    → next_char c rest ≡ some r
    → Decoded c rest r
unfolding next_char
next_one c rest r hi h e = (
  c,
  record { nonzero = ground arith; in_range = omega arith; no_surrogate = inl (omega arith) },
  ground arith,
  ground arith,
)

lead_range :
    (c : ℕ) (rest r : Bytes)
    → c < 256
    → 0x80 ≤ c
    → next_char c rest ≡ some r
    → (0xc0 ≤ c) × (c < 0xf8)
unfolding next_char multibyte
lead_range c rest r hc lo e = ground (arith, lead_value c)

pub next_char-Decoded :
    (c : ℕ) (rest r : Bytes)
    → c < 256
    → All IsByte rest
    → next_char c rest ≡ some r
    → Decoded c rest r
next_char-Decoded c rest r hc h e = elim (Bool-cases (ltb c 0x80)) [
  | inl p ↦ next_one c rest r (ground arith) h e
  | inr p ↦
      let range = lead_range c rest r hc (ground arith) e in
      elim (Bool-cases (ltb c 0xe0)) [
        | inl q ↦ next_two c rest r range.0 (ground arith) h e
        | inr q ↦ elim (Bool-cases (ltb c 0xf0)) [
          | inl s ↦ next_three c rest r (ground arith) (ground arith) h e
          | inr s ↦ next_four c rest r (ground arith) range.1 h e
        ]
      ]
]
