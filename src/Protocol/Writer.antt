-- ===== src/Protocol/Writer.antt =====
-- include/minimosq/protocol/writer.hpp: the bounds-checked writer. `out` is buf_[0, len_).
pub mod Appends
use minimosq_mqtt.Prelude.{
  ℕ, zero, suc, ◌+◌, ◌-◌, ◌/◌, ◌%◌, ◌^◌, bit_and, bit_or, Bool, true, false, not, ◌||◌, [], ◌∷◌,
  ◌++◌, ltb, if◌then◌else◌, Bytes, length,
}
use minimosq_mqtt.Protocol.Constants.{max_utf8_len, max_remaining_length}

pub record Writer : Type 0 where
  pub out : Bytes
  pub cap : ℕ
  pub ok : Bool

unfoldable pub writer : ℕ → Writer
writer cap = record { out = []; cap = cap; ok = true }

abbrev pub size : Writer → ℕ
size w = length w.out

abbrev pub fail : Writer → Writer
fail w = record w { ok = false }

unfoldable pub u8 : ℕ → Writer → Writer
u8 v w = if not w.ok || ltb w.cap (size w + 1) then fail w else record w { out = w.out ++ v ∷ [] }

unfoldable pub u16 : ℕ → Writer → Writer
u16 v w =
    if not w.ok || ltb w.cap (size w + 2)
    then fail w
    else record w { out = w.out ++ (v / 2 ^ 8) ∷ (bit_and v 0xff) ∷ [] }

-- `b.len > cap_ - len_`: the subtraction does not wrap, as len_ <= cap_ always.
unfoldable pub bytes : Bytes → Writer → Writer
bytes b w =
    if not w.ok || ltb (w.cap - size w) (length b) then fail w else record w { out = w.out ++ b }

unfoldable pub utf8 : Bytes → Writer → Writer
utf8 s w = if ltb max_utf8_len (length s) then fail w else bytes s (u16 (length s % 2 ^ 16) w)

-- One digit of the varint, and the loop over them.
abbrev varint_digit : ℕ → ℕ
varint_digit v = if ltb 0 (v / 128) then bit_or (v % 128) 0x80 else v % 128

unfoldable pub varint_loop : ℕ → ℕ → Writer → Writer
varint_loop zero v w = w
varint_loop (suc fuel) v w =
    let next = varint_loop fuel (v / 128) (u8 (varint_digit v) w) in
    if ltb 0 (v / 128) then next else u8 (varint_digit v) w

-- At most `max_remaining_length`, below 128 ^ 4, so four rounds end the loop.
unfoldable pub varint : ℕ → Writer → Writer
varint v w = if ltb max_remaining_length v then fail w else varint_loop 4 v w

-- The bytes of a Remaining Length [MQTT-2.2.3]: groups of seven bits, lowest first, the top bit set
-- on all but the last.
unfoldable pub varint_bytes : ℕ → ℕ → Bytes
varint_bytes zero v = v ∷ []
varint_bytes (suc k) v =
    let more = varint_bytes k (v / 128) in if ltb v 128 then v ∷ [] else (v % 128 + 128) ∷ more

abbrev pub remaining_length : ℕ → Bytes
remaining_length v = varint_bytes 3 v
