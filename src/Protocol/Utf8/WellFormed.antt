-- ===== src/Protocol/Utf8/WellFormed.antt =====
-- `utf8_valid` against the Unicode definition of UTF-8: the encodings of scalar values, without U+0000.
use minimosq_mqtt.Prelude.{
  zero, suc, refl, ℕ, ◌+◌, ◌/◌, ◌%◌, ◌<◌, ◌≤◌, ◌≡◌, ◌⊎◌, none, some, List, [], ◌∷◌, ◌++◌, arith,
  Bytes, All, IsByte, inl, inr, Option, true, Option-cases, ap, length, ◌∙◌, ◌↔◌, subst, sym,
}
use minimosq_mqtt.Protocol.Utf8.{
  multibyte, overlong, out_of_range, next_char, utf8_loop, utf8_valid,
}
use minimosq_mqtt.Protocol.Utf8.Decoding.{
  IsScalar, encode, encode_all, shift_in_value, lead_value, is_continuation, next_char-Decoded,
}

-- The whole loop, read as a list of scalar values.
abbrev pub WellFormed : Bytes → Type 0
WellFormed s = (cps : List ℕ) × All IsScalar cps × (s ≡ encode_all cps)

utf8_loop→WellFormed :
    (fuel : ℕ) (s : Bytes) → All IsByte s → utf8_loop fuel s ≡ true → WellFormed s
unfolding utf8_loop
utf8_loop→WellFormed fuel [] h e = ([], tt, refl)
utf8_loop→WellFormed zero (c ∷ rest) h e = cc
utf8_loop→WellFormed (suc fuel) (c ∷ rest) h e = elim (Option-cases (next_char c rest)) [
  | inl stop ↦ cc
  | inr (r, go) ↦
      let (cp, scalar, split, bytes) = next_char-Decoded c rest r h.0 h.1 go in
      let (cps, scalars, tail) = utf8_loop→WellFormed fuel r bytes (rw (go, utf8_loop) at e) in
      (cp ∷ cps, (scalar, scalars), split ∙ ap (◌++◌ (encode cp)) tail)
]

-- `next_char` on a whole sequence, its lead byte included.
abbrev advance : Bytes → Option Bytes
advance [] = none
advance (c ∷ rest) = next_char c rest

advance_two :
    (cp : ℕ) (r : Bytes)
    → 0x80 ≤ cp
    → cp < 0x800
    → next_char (0xc0 + cp / 64) ((0x80 + cp % 64) ∷ r) ≡ some r
unfolding next_char multibyte overlong out_of_range
advance_two cp r lo hi = ground (
  arith,
  lead_value (0xc0 + cp / 64),
  shift_in_value (cp / 64) (0x80 + cp % 64),
  is_continuation (0x80 + cp % 64),
)

advance_three :
    (cp : ℕ) (r : Bytes)
    → 0x800 ≤ cp
    → cp < 0x10000
    → (cp < 0xd800) ⊎ (0xdfff < cp)
    → next_char (0xe0 + cp / 4096) ((0x80 + cp / 64 % 64) ∷ (0x80 + cp % 64) ∷ r) ≡ some r
unfolding next_char multibyte overlong out_of_range
advance_three cp r lo hi s = ground (
  arith,
  lead_value (0xe0 + cp / 4096),
  shift_in_value (cp / 4096) (0x80 + cp / 64 % 64),
  shift_in_value (cp / 64) (0x80 + cp % 64),
  is_continuation (0x80 + cp / 64 % 64),
  is_continuation (0x80 + cp % 64),
)

advance_four :
    (cp : ℕ) (r : Bytes)
    → 0x10000 ≤ cp
    → cp ≤ 0x10ffff
    → next_char
        (0xf0 + cp / 262144)
        ((0x80 + cp / 4096 % 64) ∷ (0x80 + cp / 64 % 64) ∷ (0x80 + cp % 64) ∷ r)
      ≡ some r
unfolding next_char multibyte overlong out_of_range
advance_four cp r lo hi = ground (
  arith,
  lead_value (0xf0 + cp / 262144),
  shift_in_value (cp / 262144) (0x80 + cp / 4096 % 64),
  shift_in_value (cp / 4096) (0x80 + cp / 64 % 64),
  shift_in_value (cp / 64) (0x80 + cp % 64),
  is_continuation (0x80 + cp / 4096 % 64),
  is_continuation (0x80 + cp / 64 % 64),
  is_continuation (0x80 + cp % 64),
)

advance_one : (cp : ℕ) (r : Bytes) → 0 < cp → cp < 0x80 → next_char cp r ≡ some r
unfolding next_char
advance_one cp r lo hi = ground arith

advance-encode : (cp : ℕ) (r : Bytes) → IsScalar cp → advance (encode cp ++ r) ≡ some r
advance-encode cp r h =
    ground (arith, advance_one cp r, advance_two cp r, advance_three cp r, advance_four cp r)

utf8_loop-advance :
    (fuel : ℕ) (s r : Bytes) → advance s ≡ some r → utf8_loop (suc fuel) s ≡ utf8_loop fuel r
unfolding utf8_loop
utf8_loop-advance fuel [] r e = cc
utf8_loop-advance fuel (c ∷ rest) r e = rw (e, utf8_loop)

encode-nonempty : (cp : ℕ) (r : Bytes) → length r < length (encode cp ++ r)
encode-nonempty cp r = ground arith

utf8_loop-encode_all :
    (cps : List ℕ) (fuel : ℕ)
    → All IsScalar cps
    → length (encode_all cps) ≤ fuel
    → utf8_loop fuel (encode_all cps) ≡ true
utf8_loop-encode_all [] fuel h hf = unfold utf8_loop in refl
utf8_loop-encode_all (cp ∷ cps) zero h hf =
    absurd (omega (arith, encode-nonempty cp (encode_all cps)))
utf8_loop-encode_all (cp ∷ cps) (suc fuel) h hf =
    utf8_loop-advance fuel (encode cp ++ encode_all cps) (encode_all cps)
      (advance-encode cp (encode_all cps) h.0)
    ∙ utf8_loop-encode_all cps fuel h.1 (omega (arith, encode-nonempty cp (encode_all cps)))

-- A list of bytes is accepted by `utf8_valid` exactly when it is the UTF-8 encoding of scalar
-- values other than U+0000.
pub utf8_valid-WellFormed : (s : Bytes) → All IsByte s → (utf8_valid s ≡ true) ↔ WellFormed s
unfolding utf8_valid
utf8_valid-WellFormed s h = (
  utf8_loop→WellFormed (length s) s h,
  λ w.
      let (cps, scalars, e) = w in
      subst (λ t. utf8_loop (length t) t ≡ true) (sym e)
        (utf8_loop-encode_all cps (length (encode_all cps)) scalars (omega arith)),
)
