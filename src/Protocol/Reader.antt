-- ===== src/Protocol/Reader.antt =====
-- include/minimosq/protocol/reader.hpp: the bounds-checked reader. `input` is [p_, end_).
use minimosq_mqtt.Prelude.{
  ℕ, ◌+◌, ◌*◌, ◌/◌, ◌%◌, ◌^◌, ◌<◌, bit_or, ◌≡◌, refl, ap, ◌∙◌, Bool, true, false, not, ◌||◌, none,
  some, [], ◌∷◌, ◌++◌, arith, ltb, ◌==◌, if◌then◌else◌, Bytes, length, take, drop, get_elem?,
  bit_or-shift, take-append, drop-append, length-append,
}

pub record Reader : Type 0 where
  pub input : Bytes
  pub ok : Bool

unfoldable pub reader : Bytes → Reader
reader s = record { input = s; ok = true }

abbrev pub remaining : Reader → ℕ
remaining r = length r.input

abbrev pub at_end : Reader → Bool
at_end r = remaining r == 0

abbrev fail : Reader → Reader
fail r = record r { ok = false }

-- `p_[i]`, behind a bounds test.
abbrev byte_at : Bytes → ℕ → ℕ
byte_at s i = elim (get_elem? s i) [ none ↦ 0 | some b ↦ b ]

unfoldable pub u8 : Reader → ℕ × Reader
u8 r =
    if not r.ok || ltb (remaining r) 1
    then (0, fail r)
    else (byte_at r.input 0, record r { input = drop 1 r.input })

unfoldable pub u16 : Reader → ℕ × Reader
u16 r = if not r.ok || ltb (remaining r) 2 then (0, fail r) else (
  bit_or (byte_at r.input 0 * 2 ^ 8) (byte_at r.input 1) % 2 ^ 16,
  record r { input = drop 2 r.input },
)

unfoldable pub bytes : ℕ → Reader → Bytes × Reader
bytes n r =
    if not r.ok || ltb (remaining r) n
    then ([], fail r)
    else (take n r.input, record r { input = drop n r.input })

unfoldable pub len_prefixed_bytes : Reader → Bytes × Reader
len_prefixed_bytes r = let (n, s) = u16 r in if not s.ok then ([], s) else bytes n s

unfoldable pub utf8 : Reader → Bytes × Reader
utf8 r = len_prefixed_bytes r

-- `Reader::rest`
unfoldable pub rest : Reader → Bytes × Reader
rest r = if not r.ok then ([], r) else (r.input, record r { input = [] })

-- Reading the fields of a well-formed input.
abbrev pub at : Bytes → Reader
at s = record { input = s; ok = true }

pub u8_reads : (b : ℕ) (s : Bytes) → u8 (at (b ∷ s)) ≡ (b, at s)
unfolding u8
u8_reads b s = ground arith

pub u16_reads :
    (hi lo : ℕ) (s : Bytes) → hi < 256 → lo < 256 → u16 (at (hi ∷ lo ∷ s)) ≡ (hi * 256 + lo, at s)
unfolding u16
u16_reads hi lo s h l = ground (arith, bit_or-shift 8 hi lo)

pub bytes_reads : (b s : Bytes) → bytes (length b) (at (b ++ s)) ≡ (b, at s)
unfolding bytes
bytes_reads b s = ground (arith, take-append b s, drop-append b s, length-append b s)

-- A field of fewer than 65536 bytes behind its big-endian length is read back, and the reader
-- stands behind it.
pub len_prefixed_reads :
    (b s : Bytes)
    → length b < 2 ^ 16
    → len_prefixed_bytes (at ((length b / 256) ∷ (length b % 256) ∷ (b ++ s))) ≡ (b, at s)
unfolding len_prefixed_bytes
len_prefixed_reads b s h =
    let n : length b / 256 * 256 + length b % 256 ≡ length b = omega arith in
    rw (u16_reads (length b / 256) (length b % 256) (b ++ s) (omega arith) (omega arith), n)
      (bytes_reads b s)

-- The same for the text at the front of a fresh reader, and for a big-endian number.
pub utf8_reads :
    (b s : Bytes)
    → length b < 2 ^ 16
    → utf8 (reader ((length b / 256) ∷ (length b % 256) ∷ (b ++ s))) ≡ (b, at s)
unfolding utf8 reader
utf8_reads b s h = len_prefixed_reads b s h

pub number_reads :
    (n : ℕ) (s : Bytes) → n < 2 ^ 16 → u16 (at ((n / 256) ∷ (n % 256) ∷ s)) ≡ (n, at s)
number_reads n s h =
    let value : n / 256 * 256 + n % 256 ≡ n = omega arith in
    u16_reads (n / 256) (n % 256) s (omega arith) (omega arith) ∙ ap (λ m. (m, at s)) value

pub rest_reads : (s : Bytes) → (rest (at s)).0 ≡ s
unfolding rest
rest_reads s = refl
