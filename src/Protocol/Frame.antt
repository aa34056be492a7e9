-- ===== src/Protocol/Frame.antt =====
-- include/minimosq/protocol/frame.hpp: the incremental frame parser. The callback is a function on
-- the caller's state that also answers whether to go on; `max` is MaxBodySize.
pub mod Keeps
pub mod Bytewise
pub mod Stream
use minimosq_mqtt.Prelude.{
  ℕ, zero, suc, ◌+◌, ◌-◌, ◌*◌, ◌%◌, ◌^◌, bit_and, bit_or, Bool, not, Option, none, some, [], ◌∷◌,
  ◌++◌, ltb, leb, ◌==◌, if◌then◌else◌, Bytes, length, take, drop,
}
use minimosq_mqtt.Core.Span.{Err}

-- `FrameParser::State`
pub data State : Type 0 where
  first_byte length_byte body_bytes : State

-- `body` is body_[0, body_len_).
pub record FrameParser : Type 0 where
  pub body : Bytes
  pub rem_len : ℕ
  pub state : State
  pub first : ℕ
  pub len_shift : ℕ

unfoldable pub new_parser : FrameParser
new_parser = record { body = []; rem_len = 0; state = first_byte; first = 0; len_shift = 0 }

unfoldable pub reset : FrameParser → FrameParser
reset p = record p { state = first_byte; rem_len = 0; body = []; len_shift = 0 }

-- How a round of `feed` leaves the loop: it goes on, returns because the callback asked to stop, or
-- returns an error.
pub data Round {ℓ} (S : Type ℓ) : Type ℓ where
  more : FrameParser → S → Round S
  stopped : FrameParser → S → Round S
  failed : Err → FrameParser → S → Round S

abbrev pub take_first : FrameParser → ℕ → FrameParser
take_first p b = record p { first = b; rem_len = 0; len_shift = 0; body = []; state = length_byte }

-- `rem_len_ |= static_cast<uint32_t>(b & 0x7F) << len_shift_`
abbrev pub add_digit : FrameParser → ℕ → FrameParser
add_digit p b = record p { rem_len = bit_or p.rem_len (bit_and b 0x7f * 2 ^ p.len_shift % 2 ^ 32) }

module _ {ℓ} {S : Type ℓ} (max : ℕ) (on_packet : S → ℕ → Bytes → S × Bool) where
  -- The packet is consumed whether or not the callback wants more.
  pub deliver : FrameParser → S → Round S
  deliver p s =
      let (s', go_on) = on_packet s p.first p.body in
      let q = record p { state = first_byte } in if go_on then more q s' else stopped q s'

  -- `case State::length`
  pub take_length : FrameParser → S → ℕ → Round S
  unfolding deliver
  take_length p0 s b =
      let p = add_digit p0 b in
      if not (bit_and b 0x80 == 0)
      then if leb 21 p.len_shift
        then failed Err.malformed p s
        else more (record p { len_shift = (p.len_shift + 7) % 256 }) s
      else if ltb max p.rem_len
      then failed Err.oversize p s
      else if p.rem_len == 0
      then deliver (record p { body = [] }) s
      else more (record p { state = body_bytes }) s

  -- `case State::body`: a block as wide as the input and the packet allow, then the test for its end.
  pub take_body : FrameParser → S → Bytes → Round S × Bytes
  unfolding deliver
  take_body p s input =
      let want = p.rem_len - length p.body in
      let have = length input in
      let n = if ltb want have then want else have in
      let q = record p { body = p.body ++ take n input } in
      (if length q.body == q.rem_len then deliver q s else more q s, drop n input)

  -- The `switch (state_)`, on input that is not empty, with the input that the round leaves.
  pub dispatch : State → FrameParser → S → ℕ → Bytes → Round S × Bytes
  unfolding take_length take_body
  dispatch first_byte p s b rest = (more (take_first p b) s, rest)
  dispatch length_byte p s b rest = (take_length p s b, rest)
  dispatch body_bytes p s b rest = take_body p s (b ∷ rest)

  -- The `while (i < data.len)`; `none` means that the fuel ran out.
  pub feed_loop : ℕ → FrameParser → S → Bytes → Option (Round S)
  unfolding dispatch
  feed_loop fuel p s [] = some (more p s)
  feed_loop zero p s (b ∷ rest) = none
  feed_loop (suc fuel) p s (b ∷ rest) =
      let (r, left) = dispatch p.state p s b rest in
      elim r [
        | more q t ↦ feed_loop fuel q t left
        | stopped q t ↦ some (stopped q t)
        | failed e q t ↦ some (failed e q t)
      ]

  -- What `feed` returns: an error code, with the parser and the caller's state.
  abbrev pub result : Round S → Err × FrameParser × S
  result (more p s) = (Err.ok, p, s)
  result (stopped p s) = (Err.ok, p, s)
  result (failed e p s) = (e, p, s)

  -- A round takes a byte at least, so the input's length is fuel enough.
  unfoldable pub feed : FrameParser → S → Bytes → Option (Err × FrameParser × S)
  unfolding feed_loop
  feed p s input = elim (feed_loop (length input) p s input) [
    | none ↦ none
    | some r ↦ some (result r)
  ]
