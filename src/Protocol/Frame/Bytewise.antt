-- ===== src/Protocol/Frame/Bytewise.antt =====
-- `feed` as the same parser run byte by byte: the blocks that it copies make no difference.
pub mod Loop
use minimosq_mqtt.Prelude.{
  ℕ, zero, suc, ◌+◌, ◌-◌, ◌*◌, ◌%◌, ◌^◌, ◌≤◌, ◌<◌, ◌≡◌, refl, sym, ap, ◌∙◌, Bool, [], ◌∷◌, ◌++◌,
  append_assoc, arith, ◌==◌, if◌then◌else◌, Bytes, length, take, drop, and_7f, and_80, bit_or-low,
  length-append,
}
use native.Mathlib.Nat.{pow-le-pow_right, mul-le-mul, mod-eq_of_lt}
use native.Mathlib.Numerals.{towards_suc}
use minimosq_mqtt.Protocol.Frame.{
  State, first_byte, length_byte, body_bytes, FrameParser, Round, more, stopped, failed, take_first,
  add_digit, deliver, take_length,
}

-- What the parser's fields satisfy between two bytes, state by state. In the body the buffer of
-- `max` bytes is never overrun, and the length's shift stays inside a uint32_t.
abbrev pub ValidAt : ℕ → State → FrameParser → Type 0
ValidAt max first_byte p = Unit {0}
ValidAt max length_byte p =
    (p.body ≡ []) × (p.len_shift % 7 ≡ 0) × (p.len_shift ≤ 21) × (p.rem_len < 2 ^ p.len_shift)
ValidAt max body_bytes p = (length p.body < p.rem_len) × (p.rem_len ≤ max)

abbrev pub IsValid : ℕ → FrameParser → Type 0
IsValid max p = ValidAt max p.state p

abbrev pub RoundValid {ℓ} : {S : Type ℓ} → ℕ → Round S → Type 0
RoundValid max (more p s) = IsValid max p
RoundValid max (stopped p s) = IsValid max p
RoundValid max (failed e p s) = Unit {0}

digit_fits : (d k : ℕ) → d < 128 → k ≤ 21 → d * 2 ^ k < 2 ^ 32
digit_fits d k hd hk =
    let bound : 2 ^ k ≤ 2 ^ 21 = pow-le-pow_right (omega arith) hk in
    let product : d * 2 ^ k ≤ 127 * 2 ^ 21 = mul-le-mul {n₂ = 127} (omega arith) bound in
    omega arith

pub add_digit_value :
    (p : FrameParser) (b : ℕ)
    → b < 256
    → p.len_shift ≤ 21
    → p.rem_len < 2 ^ p.len_shift
    → add_digit p b ≡ record p { rem_len = p.rem_len + b % 128 * 2 ^ p.len_shift }
add_digit_value p b hb hs hr = ground (
  arith,
  and_7f b hb,
  mod-eq_of_lt (digit_fits (b % 128) p.len_shift (omega arith) hs),
  bit_or-low p.len_shift p.rem_len (b % 128) hr,
)

pub shift_seven : (k : ℕ) → 2 ^ (k + 7) ≡ 128 * 2 ^ k
shift_seven k = simp towards_suc (omega arith)

pub digit_grows : (d k r : ℕ) → d < 128 → r < 2 ^ k → r + d * 2 ^ k < 2 ^ (k + 7)
digit_grows d k r hd hr =
    let product : d * 2 ^ k ≤ 127 * 2 ^ k =
      mul-le-mul {n₂ = 127} {m₂ = 2 ^ k} (omega arith) (omega arith) in
    omega (arith, shift_seven k)

module _ {ℓ} {S : Type ℓ} (max : ℕ) (on_packet : S → ℕ → Bytes → S × Bool) where
  -- One byte, state by state.
  pub step_at : State → FrameParser → S → ℕ → Round S
  step_at first_byte p s b = more (take_first p b) s
  step_at length_byte p s b = take_length max on_packet p s b
  step_at body_bytes p s b =
      let q = record p { body = p.body ++ b ∷ [] } in
      if length q.body == q.rem_len then deliver max on_packet q s else more q s

  abbrev pub step : FrameParser → S → ℕ → Round S
  step p s b = step_at p.state p s b

  pub run : FrameParser → S → Bytes → Round S
  run p s [] = more p s
  run p s (b ∷ rest) = elim (step p s b) [
    | more q t ↦ run q t rest
    | stopped q t ↦ stopped q t
    | failed e q t ↦ failed e q t
  ]

  pub run_nil : (p : FrameParser) (s : S) → run p s [] ≡ more p s
  unfolding run
  run_nil p s = refl

  abbrev pub continue : Round S → Bytes → Round S
  continue (more q t) rest = run q t rest
  continue (stopped q t) rest = stopped q t
  continue (failed e q t) rest = failed e q t

  pub run-step :
      (p : FrameParser) (s : S) (b : ℕ) (rest : Bytes)
      → run p s (b ∷ rest) ≡ continue (step p s b) rest
  unfolding run
  run-step p s b rest = ground arith

  pub deliver-Valid : (p : FrameParser) (s : S) → RoundValid max (deliver max on_packet p s)
  unfolding deliver
  deliver-Valid p s = ground arith

  pub take_length-Valid :
      (p : FrameParser) (s : S) (b : ℕ)
      → b < 256
      → ValidAt max length_byte p
      → p.state ≡ length_byte
      → RoundValid max (take_length max on_packet p s b)
  unfolding take_length
  take_length-Valid p s b hb v e = ground (
    arith,
    add_digit_value p b hb v.2 v.3,
    and_80 b hb,
    shift_seven p.len_shift,
    digit_grows (b % 128) p.len_shift p.rem_len,
  )

  pub run_at :
      (st : State) (p : FrameParser) (s : S) (b : ℕ) (rest : Bytes)
      → p.state ≡ st
      → run p s (b ∷ rest) ≡ continue (step_at st p s b) rest
  run_at st p s b rest e = run-step p s b rest ∙ ap (λ u. continue (step_at u p s b) rest) e

  pub run_first :
      (p : FrameParser) (s : S) (b : ℕ) (rest : Bytes)
      → p.state ≡ first_byte
      → run p s (b ∷ rest) ≡ run (take_first p b) s rest
  unfolding step_at
  run_first p s b rest e = run_at first_byte p s b rest e

  pub run_length_byte :
      (p : FrameParser) (s : S) (b : ℕ) (rest : Bytes)
      → p.state ≡ length_byte
      → run p s (b ∷ rest) ≡ continue (take_length max on_packet p s b) rest
  unfolding step_at
  run_length_byte p s b rest e = run_at length_byte p s b rest e

  run_more :
      (p : FrameParser) (s : S) (b : ℕ) (rest : Bytes)
      → length p.body + 2 ≤ p.rem_len
      → continue (step_at body_bytes p s b) rest ≡ run (record p { body = p.body ++ b ∷ [] }) s rest
  unfolding step_at
  run_more p s b rest h = ground (arith, length-append p.body (b ∷ []))

  -- A block of the body, taken at once, does what its bytes do one by one.
  pub run_block :
      (n : ℕ) (p : FrameParser) (s : S) (input : Bytes)
      → p.state ≡ body_bytes
      → length p.body + suc n ≤ p.rem_len
      → suc n ≤ length input
      → let q = record p { body = p.body ++ take (suc n) input } in
        run p s input
        ≡ continue
            (if length q.body == q.rem_len then deliver max on_packet q s else more q s)
            (drop (suc n) input)
  run_block n p s [] e fits have = absurd (omega arith)
  run_block zero p s (b ∷ rest) e fits have =
      run-step p s b rest ∙ ap (λ st. continue (step_at st p s b) rest) e ∙ unfold step_at in refl
  run_block (suc n) p s (b ∷ rest) e fits have =
      let q : FrameParser = record p { body = p.body ++ b ∷ [] } in
      run-step p s b rest
      ∙ ap (λ st. continue (step_at st p s b) rest) e
      ∙ run_more p s b rest (omega arith)
      ∙ run_block n q s rest e (omega (arith, length-append p.body (b ∷ []))) (omega arith)
      ∙ rw append_assoc refl

  -- Two inputs in a row.
  continue-append :
      (r : Round S) (a b : Bytes)
      → ((q : FrameParser) (t : S) → run q t (a ++ b) ≡ continue (run q t a) b)
      → continue r (a ++ b) ≡ continue (continue r a) b
  continue-append (more q t) a b ih = ih q t
  continue-append (stopped q t) a b ih = refl
  continue-append (failed e q t) a b ih = refl

  pub run-append :
      (p : FrameParser) (s : S) (a b : Bytes) → run p s (a ++ b) ≡ continue (run p s a) b
  run-append p s [] b = unfold run in refl
  run-append p s (x ∷ a) b =
      run-step p s x (a ++ b)
      ∙ continue-append (step p s x) a b (λ q t. run-append q t a b)
      ∙ ap (λ r. continue r b) (sym (run-step p s x a))
