-- ===== src/Protocol/Utf8.antt =====
-- include/minimosq/protocol/utf8.hpp: `utf8_valid`. The index is the suffix that is still to be read.
pub mod Decoding
pub mod WellFormed
use minimosq_mqtt.Prelude.{
  ℕ, zero, suc, ◌*◌, ◌%◌, ◌^◌, Bool, true, false, ◌&&◌, ◌||◌, Option, none, some, [], ◌∷◌, ltb, leb,
  ◌==◌, bit_and, bit_or, if◌then◌else◌, Bytes, length,
}

-- The number of continuation bytes that a lead byte announces, and its share of the code point.
pub lead : ℕ → Option (ℕ × ℕ)
lead c =
    if bit_and c 0xe0 == 0xc0
    then some (1, bit_and c 0x1f)
    else if bit_and c 0xf0 == 0xe0
    then some (2, bit_and c 0x0f)
    else if bit_and c 0xf8 == 0xf0
    then some (3, bit_and c 0x07)
    else none

-- `cp = (cp << 6) | (b & 0x3f)`, on a uint32_t
unfoldable pub shift_in : ℕ → ℕ → ℕ
shift_in cp b = bit_or (cp * 2 ^ 6 % 2 ^ 32) (bit_and b 0x3f)

-- The loop over the continuation bytes; `none` where it answers false. The caller has tested that
-- the bytes are there.
continuation : ℕ → ℕ → Bytes → Option (ℕ × Bytes)
continuation zero cp rest = some (cp, rest)
continuation (suc k) cp [] = none
continuation (suc k) cp (b ∷ rest) =
    let more = continuation k (shift_in cp b) rest in if bit_and b 0xc0 == 0x80 then more else none

overlong : ℕ → ℕ → Bool
overlong cont cp =
    (cont == 1 && ltb cp 0x80) || (cont == 2 && ltb cp 0x800) || (cont == 3 && ltb cp 0x10000)

out_of_range : ℕ → Bool
out_of_range cp = ltb 0x10ffff cp || (leb 0xd800 cp && leb cp 0xdfff)

-- The checks on a decoded sequence; the answer is the suffix at the next character.
accept : ℕ → Option (ℕ × Bytes) → Option Bytes
unfolding overlong out_of_range
accept cont none = none
accept cont (some (cp, rest)) =
    if overlong cont cp then none else if out_of_range cp then none else some rest

multibyte : Option (ℕ × ℕ) → Bytes → Option Bytes
unfolding accept continuation
multibyte none rest = none
multibyte (some (cont, cp)) rest =
    if ltb (length rest) cont then none else accept cont (continuation cont cp rest)

-- One round of the loop: `none` is `return false`, `some` is the suffix from the new index on.
unfoldable pub next_char : ℕ → Bytes → Option Bytes
unfolding multibyte lead
next_char c rest =
    if c == 0x00 then none else if ltb c 0x80 then some rest else multibyte (lead c) rest

unfoldable pub utf8_loop : ℕ → Bytes → Bool
unfolding next_char
utf8_loop fuel [] = true
utf8_loop zero (c ∷ rest) = false
utf8_loop (suc fuel) (c ∷ rest) = elim (next_char c rest) [
  | none ↦ false
  | some r ↦ utf8_loop fuel r
]

-- Each round takes a byte at least, so the length is fuel enough.
unfoldable pub utf8_valid : Bytes → Bool
unfolding utf8_loop shift_in
utf8_valid s = utf8_loop (length s) s
