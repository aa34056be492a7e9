-- ===== src/Protocol/Frame/Stream.antt =====
-- A byte stream of whole packets, cut into any pieces, is delivered packet by packet.
pub mod Packets
use minimosq_mqtt.Prelude.{
  ℕ, zero, suc, ◌+◌, ◌-◌, ◌*◌, ◌/◌, ◌%◌, ◌^◌, ◌≤◌, ◌<◌, ◌≡◌, ap, ◌∙◌, inl, inr, Bool, [], ◌∷◌, ◌++◌,
  arith, ltb, ◌==◌, if◌then◌else◌, Bool-cases, Bytes, length, and_80,
}
use native.Mathlib.Nat.{pow-suc, div-add-mod}
use minimosq_mqtt.Core.Span.{Err}
use minimosq_mqtt.Protocol.Writer.{varint_bytes, remaining_length}
use minimosq_mqtt.Protocol.Writer.Appends.{varint_bytes_last, varint_bytes_more}
use minimosq_mqtt.Protocol.Frame.{
  length_byte, body_bytes, FrameParser, Round, more, failed, deliver, take_length,
}
use minimosq_mqtt.Protocol.Frame.Bytewise.{
  ValidAt, add_digit_value, digit_grows, shift_seven, run, continue, run_length_byte,
}

-- A packet on the wire: first byte, Remaining Length, body.
abbrev pub packet : ℕ → Bytes → Bytes
packet first body = first ∷ (remaining_length (length body) ++ body)

module _ {S : Type 0} (max : ℕ) (on_packet : S → ℕ → Bytes → S × Bool) where
  -- What the last byte of the Remaining Length leads to.
  pub length_done : FrameParser → S → Round S
  length_done p s =
      if ltb max p.rem_len
      then failed Err.oversize p s
      else if p.rem_len == 0
      then deliver max on_packet (record p { body = [] }) s
      else more (record p { state = body_bytes }) s

  last_digit :
      (p : FrameParser) (s : S) (v : ℕ)
      → ValidAt max length_byte p
      → v < 128
      → take_length max on_packet p s v
        ≡ length_done (record p { rem_len = p.rem_len + v * 2 ^ p.len_shift }) s
  unfolding take_length length_done
  last_digit p s v valid h =
      ground (arith, add_digit_value p v (omega arith) valid.2 valid.3, and_80 v)

  inner_digit :
      (p : FrameParser) (s : S) (d : ℕ)
      → ValidAt max length_byte p
      → d < 128
      → p.len_shift < 21
      → take_length max on_packet p s (d + 128)
        ≡ more
            (record p { rem_len = p.rem_len + d * 2 ^ p.len_shift; len_shift = p.len_shift + 7 })
            s
  unfolding take_length
  inner_digit p s d valid h low =
      ground (arith, add_digit_value p (d + 128) (omega arith) valid.2 valid.3, and_80 (d + 128))

  -- A whole Remaining Length of at most `k + 1` bytes leads to its value.
  abbrev pub ReadsLength : ℕ → Type 0
  ReadsLength k =
      (v : ℕ) (p : FrameParser) (s : S) (rest : Bytes)
      → p.state ≡ length_byte
      → ValidAt max length_byte p
      → p.len_shift + 7 * k ≤ 21
      → v < 128 ^ suc k
      → (shift : ℕ) × (run max on_packet p s (varint_bytes k v ++ rest)
          ≡ continue max on_packet
              (length_done
                (record p { rem_len = p.rem_len + v * 2 ^ p.len_shift; len_shift = shift }) s)
              rest)

  short_length :
      (k v : ℕ) (p : FrameParser) (s : S) (rest : Bytes)
      → p.state ≡ length_byte
      → ValidAt max length_byte p
      → v < 128
      → run max on_packet p s (varint_bytes k v ++ rest)
        ≡ continue max on_packet
            (length_done (record p { rem_len = p.rem_len + v * 2 ^ p.len_shift }) s)
            rest
  short_length k v p s rest e valid h = rw (varint_bytes_last k v h) (
      run_length_byte max on_packet p s v rest e
      ∙ ap (λ r. continue max on_packet r rest) (last_digit p s v valid h))

  value_split : (v k r : ℕ) → r + v % 128 * 2 ^ k + v / 128 * 2 ^ (k + 7) ≡ r + v * 2 ^ k
  value_split v k r = omega (
    arith,
    ap (λ (t : ℕ). t * 2 ^ k) (div-add-mod v 128),
    ap (λ (t : ℕ). v / 128 * t) (shift_seven k),
  )

  long_length :
      (k v : ℕ) (p : FrameParser) (s : S) (rest : Bytes)
      → ReadsLength k
      → p.state ≡ length_byte
      → ValidAt max length_byte p
      → p.len_shift + 7 * suc k ≤ 21
      → v < 128 ^ suc (suc k)
      → 128 ≤ v
      → (shift : ℕ) × (run max on_packet p s (varint_bytes (suc k) v ++ rest)
          ≡ continue max on_packet
              (length_done
                (record p { rem_len = p.rem_len + v * 2 ^ p.len_shift; len_shift = shift })
                s)
              rest)
  long_length k v p s rest later e valid room fits h =
      let d = v % 128 in
      let q : FrameParser = record p {
        rem_len = p.rem_len + d * 2 ^ p.len_shift;
        len_shift = p.len_shift + 7;
      } in
      let valid' : ValidAt max length_byte q = (
        valid.0,
        omega arith,
        omega arith,
        digit_grows d p.len_shift p.rem_len (omega arith) valid.3,
      ) in
      let small : v / 128 < 128 ^ suc k = grind (arith, pow-suc 128 (suc k)) in
      let (shift, tail) = later (v / 128) q s rest e valid' (omega arith) small in
      (
        shift,
        rw (varint_bytes_more k v h) (
            run_length_byte max on_packet p s (d + 128) (varint_bytes k (v / 128) ++ rest) e
            ∙ ap (λ r. continue max on_packet r (varint_bytes k (v / 128) ++ rest))
                (inner_digit p s d valid (omega arith) (omega arith))
            ∙ tail
            ∙ ap
                (λ n.
                  continue max on_packet
                    (length_done (record p { rem_len = n; len_shift = shift }) s) rest)
                (value_split v p.len_shift p.rem_len)),
      )

  pub reads_length : (k : ℕ) → ReadsLength k
  reads_length zero v p s rest e valid room fits =
      (p.len_shift, short_length zero v p s rest e valid (omega arith))
  reads_length (suc k) v p s rest e valid room fits = elim (Bool-cases (ltb v 128)) [
    | inl small ↦ (p.len_shift, short_length (suc k) v p s rest e valid (ground arith))
    | inr large ↦ long_length k v p s rest (reads_length k) e valid room fits (ground arith)
  ]
