-- ===== src/Protocol/Writer/Appends.antt =====
-- What the writer's operations append, and that failure is sticky.
use minimosq_mqtt.Prelude.{
  ℕ, zero, suc, ◌+◌, ◌/◌, ◌%◌, ◌^◌, ◌≤◌, ◌<◌, ◌≡◌, refl, ◌⊎◌, inl, inr, true, false, [], ◌∷◌, ◌++◌,
  append_assoc, arith, ltb, if◌then◌else◌, Bool-cases, Bytes, length, length-append, and_ff, or_80,
}
use native.Mathlib.Nat.{pow-suc}
use minimosq_mqtt.Protocol.Constants.{max_utf8_len, max_remaining_length}
use minimosq_mqtt.Protocol.Writer.{
  Writer, u8, u16, bytes, utf8, varint_digit, varint_loop, varint, varint_bytes, remaining_length,
}

-- What every write keeps: the bytes written lie inside the buffer.
abbrev pub Inside : Writer → Type 0
Inside w = length w.out ≤ w.cap

-- A write either appends its bytes to what was written, where they fit the buffer, or fails with
-- nothing written past the buffer's end.
abbrev pub Appends : Bytes → Writer → Writer → Type 0
Appends b w v =
    ((w.ok ≡ true) × (length w.out + length b ≤ w.cap) × (v ≡ record w { out = w.out ++ b }))
    ⊎ (((w.ok ≡ false) ⊎ (w.cap < length w.out + length b))
        × (v.ok ≡ false)
        × (v.cap ≡ w.cap)
        × Inside v)

pub u8-Appends : (v : ℕ) (w : Writer) → Inside w → Appends (v ∷ []) w (u8 v w)
unfolding u8
u8-Appends v w inside = ground arith

pub u16-Appends :
    (v : ℕ) (w : Writer) → Inside w → v < 2 ^ 16 → Appends ((v / 256) ∷ (v % 256) ∷ []) w (u16 v w)
unfolding u16
u16-Appends v w inside h = ground (arith, and_ff v)

pub bytes-Appends : (b : Bytes) (w : Writer) → Inside w → Appends b w (bytes b w)
unfolding bytes
bytes-Appends b w h = ground arith

-- Writes compose: a failure anywhere is a failure of the whole.
pub Appends-Appends :
    (a b : Bytes) (w v u : Writer) → Appends a w v → Appends b v u → Appends (a ++ b) w u
Appends-Appends a b w v u p q =
    ground (arith, length-append a b, length-append w.out a, append_assoc w.out a b)

pub Appends-Inside : (b : Bytes) (w v : Writer) → Appends b w v → Inside v
Appends-Inside b w v p = ground (arith, length-append w.out b)

digit_value : (v : ℕ) → varint_digit v ≡ (if ltb v 128 then v else v % 128 + 128)
digit_value v = ground (arith, or_80 (v % 128))

varint_loop_last : (k v : ℕ) (w : Writer) → v < 128 → varint_loop (suc k) v w ≡ u8 v w
unfolding varint_loop
varint_loop_last k v w h = ground (arith, digit_value v)

varint_loop_more :
    (k v : ℕ) (w : Writer)
    → 128 ≤ v
    → varint_loop (suc k) v w ≡ varint_loop k (v / 128) (u8 (v % 128 + 128) w)
unfolding varint_loop
varint_loop_more k v w h = ground (arith, digit_value v)

pub varint_bytes_last : (k v : ℕ) → v < 128 → varint_bytes k v ≡ v ∷ []
unfolding varint_bytes
varint_bytes_last zero v h = refl
varint_bytes_last (suc k) v h = ground arith

pub varint_bytes_more :
    (k v : ℕ) → 128 ≤ v → varint_bytes (suc k) v ≡ (v % 128 + 128) ∷ varint_bytes k (v / 128)
unfolding varint_bytes
varint_bytes_more k v h = ground arith

varint_loop-Appends :
    (k v : ℕ) (w : Writer)
    → Inside w
    → v < 128 ^ suc k
    → Appends (varint_bytes k v) w (varint_loop (suc k) v w)
varint_loop-Appends zero v w inside h =
    rw (varint_loop_last zero v w (omega arith), varint_bytes_last zero v (omega arith))
      (u8-Appends v w inside)
varint_loop-Appends (suc k) v w inside h = elim (Bool-cases (ltb v 128)) [
  | inl small ↦
      rw (varint_loop_last (suc k) v w (ground arith), varint_bytes_last (suc k) v (ground arith))
        (u8-Appends v w inside)
  | inr large ↦
      rw (varint_loop_more (suc k) v w (ground arith), varint_bytes_more k v (ground arith))
        (Appends-Appends ((v % 128 + 128) ∷ []) (varint_bytes k (v / 128)) w _ _
          (u8-Appends (v % 128 + 128) w inside)
          (varint_loop-Appends k (v / 128) (u8 (v % 128 + 128) w)
            (Appends-Inside _ w _ (u8-Appends (v % 128 + 128) w inside))
            (grind (arith, pow-suc 128 (suc k)))))
]

pub varint-Appends :
    (v : ℕ) (w : Writer)
    → Inside w
    → v ≤ max_remaining_length
    → Appends (remaining_length v) w (varint v w)
unfolding varint
varint-Appends v w inside h =
    let fits : ltb max_remaining_length v ≡ false = ground arith in
    rw fits (varint_loop-Appends 3 v w inside (omega arith))

pub utf8-Appends :
    (s : Bytes) (w : Writer)
    → Inside w
    → length s ≤ max_utf8_len
    → Appends ((length s / 256) ∷ (length s % 256) ∷ s) w (utf8 s w)
unfolding utf8
utf8-Appends s w inside h =
    let fits : ltb max_utf8_len (length s) ≡ false = ground arith in
    let whole : length s % 2 ^ 16 ≡ length s = omega arith in
    rw (fits, whole)
      (Appends-Appends ((length s / 256) ∷ (length s % 256) ∷ []) s w _ _
        (u16-Appends (length s) w inside (omega arith))
        (bytes-Appends s (u16 (length s) w)
          (Appends-Inside _ w _ (u16-Appends (length s) w inside (omega arith)))))

-- Each write of the writer either appends exactly its encoding, where it fits, or leaves it
-- failed with nothing past the end of the buffer, for a writer inside its buffer, a number below
-- 65536 and a string of at most 65535 bytes.
pub writes_append :
    (w : Writer) (v : ℕ) (s : Bytes)
    → Inside w
    → v < 2 ^ 16
    → length s ≤ max_utf8_len
    → Appends (v ∷ []) w (u8 v w)
      × Appends ((v / 256) ∷ (v % 256) ∷ []) w (u16 v w)
      × Appends s w (bytes s w)
      × Appends ((length s / 256) ∷ (length s % 256) ∷ s) w (utf8 s w)
      × Appends (remaining_length v) w (varint v w)
writes_append w v s inside hv hs = (
  u8-Appends v w inside,
  u16-Appends v w inside hv,
  bytes-Appends s w inside,
  utf8-Appends s w inside hs,
  varint-Appends v w inside (omega arith),
)
