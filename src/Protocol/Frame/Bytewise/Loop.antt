-- ===== src/Protocol/Frame/Bytewise/Loop.antt =====
-- `feed` ends on every input and does what its bytes do one by one: the blocks make no difference.
use minimosq_mqtt.Prelude.{
  ℕ, zero, suc, ◌-◌, ◌≤◌, ◌<◌, ◌≡◌, refl, sym, ap, ◌∙◌, Bool, Option, some, [], ◌∷◌, ◌++◌, arith,
  ltb, ◌==◌, if◌then◌else◌, Bytes, IsByte, All, length, take, drop, length-append, length-take,
  All-drop, length-drop,
}
use minimosq_mqtt.Protocol.Frame.{
  State, first_byte, length_byte, body_bytes, FrameParser, Round, more, stopped, failed, take_first,
  deliver, take_length, take_body, dispatch, feed_loop, result, feed,
}
use minimosq_mqtt.Protocol.Frame.Bytewise.{
  ValidAt, IsValid, RoundValid, step_at, step, run, continue, run-step, run_at, run_block,
  take_length-Valid,
}

module _ {ℓ} {S : Type ℓ} (max : ℕ) (on_packet : S → ℕ → Bytes → S × Bool) where
  -- The end of a round in the body.
  abbrev block_end : FrameParser → S → Round S
  block_end q s = if length q.body == q.rem_len then deliver max on_packet q s else more q s

  block_end-Valid :
      (q : FrameParser) (s : S)
      → q.state ≡ body_bytes
      → length q.body ≤ q.rem_len
      → q.rem_len ≤ max
      → RoundValid max (block_end q s)
  unfolding deliver
  block_end-Valid q s e fits small = ground arith

  -- The loop after a round.
  resume : ℕ → Round S → Bytes → Option (Round S)
  resume fuel (more q t) left = feed_loop max on_packet fuel q t left
  resume fuel (stopped q t) left = some (stopped q t)
  resume fuel (failed e q t) left = some (failed e q t)

  feed_loop-resume :
      (fuel : ℕ) (p : FrameParser) (s : S) (b : ℕ) (rest : Bytes)
      → feed_loop max on_packet (suc fuel) p s (b ∷ rest)
        ≡ (let (r, left) = dispatch max on_packet p.state p s b rest in resume fuel r left)
  unfolding feed_loop resume
  feed_loop-resume fuel p s b rest = ground arith

  -- What the induction knows of the later rounds.
  abbrev Later : ℕ → Type ℓ
  Later fuel =
      (q : FrameParser) (t : S) (left : Bytes)
      → All IsByte left
      → IsValid max q
      → length left ≤ fuel
      → feed_loop max on_packet fuel q t left ≡ some (run max on_packet q t left)

  resume-continue :
      (fuel : ℕ) (r : Round S) (left : Bytes)
      → Later fuel
      → RoundValid max r
      → All IsByte left
      → length left ≤ fuel
      → resume fuel r left ≡ some (continue max on_packet r left)
  unfolding resume
  resume-continue fuel (more q t) left ih v h hf = ih q t left h v hf
  resume-continue fuel (stopped q t) left ih v h hf = refl
  resume-continue fuel (failed e q t) left ih v h hf = refl

  body_round :
      (fuel : ℕ) (p : FrameParser) (s : S) (input : Bytes)
      → Later fuel
      → p.state ≡ body_bytes
      → ValidAt max body_bytes p
      → All IsByte input
      → 0 < length input
      → length input ≤ suc fuel
      → (let (r, left) = take_body max on_packet p s input in resume fuel r left)
        ≡ some (run max on_packet p s input)
  unfolding take_body
  body_round fuel p s input ih e v h some_input hf =
      let want = p.rem_len - length p.body in
      let n = if ltb want (length input) then want else length input in
      let m = n - 1 in
      let positive : n ≡ suc m = ground arith in
      let q : FrameParser = record p { body = p.body ++ take (suc m) input } in
      let inside : suc m ≤ want = ground arith in
      let present : suc m ≤ length input = ground arith in
      rw positive (
        resume-continue fuel (block_end q s) (drop (suc m) input) ih
          (block_end-Valid q s e
            (omega (arith, length-append p.body (take (suc m) input), length-take (suc m) input))
            v.1)
          (All-drop IsByte (suc m) input h) (omega (arith, length-drop (suc m) input))
        ∙ ap some (sym (run_block max on_packet m p s input e (omega arith) present)))

  round_run :
      (fuel : ℕ) (st : State) (p : FrameParser) (s : S) (b : ℕ) (rest : Bytes)
      → Later fuel
      → p.state ≡ st
      → ValidAt max st p
      → b < 256
      → All IsByte rest
      → length rest ≤ fuel
      → (let (r, left) = dispatch max on_packet st p s b rest in resume fuel r left)
        ≡ some (run max on_packet p s (b ∷ rest))
  unfolding dispatch
  round_run fuel first_byte p s b rest ih e v hb h hf =
      resume-continue fuel (more (take_first p b) s) rest ih
        (refl, omega arith, omega arith, omega arith) h hf
      ∙ ap some (sym (run_at max on_packet first_byte p s b rest e ∙ unfold step_at in refl))
  round_run fuel length_byte p s b rest ih e v hb h hf =
      resume-continue fuel (take_length max on_packet p s b) rest ih
        (take_length-Valid max on_packet p s b hb v e) h hf
      ∙ ap some (sym (run_at max on_packet length_byte p s b rest e ∙ unfold step_at in refl))
  round_run fuel body_bytes p s b rest ih e v hb h hf =
      body_round fuel p s (b ∷ rest) ih e v (hb, h) (omega arith) (omega arith)

  feed_loop-run :
      (fuel : ℕ) (p : FrameParser) (s : S) (input : Bytes)
      → All IsByte input
      → IsValid max p
      → length input ≤ fuel
      → feed_loop max on_packet fuel p s input ≡ some (run max on_packet p s input)
  feed_loop-run fuel p s [] h v hf = unfold feed_loop run in refl
  feed_loop-run zero p s (b ∷ rest) h v hf = absurd (omega arith)
  feed_loop-run (suc fuel) p s (b ∷ rest) h v hf =
      feed_loop-resume fuel p s b rest
      ∙ round_run fuel p.state p s b rest (feed_loop-run fuel) refl v h.0 h.1 (omega arith)

  -- On a valid parser and bytes, `feed` ends within its fuel and does what feeding the input
  -- byte by byte does, whatever the callback.
  pub feed-run :
      (p : FrameParser) (s : S) (input : Bytes)
      → All IsByte input
      → IsValid max p
      → feed max on_packet p s input ≡ some (result max on_packet (run max on_packet p s input))
  unfolding feed
  feed-run p s input h v = rw (feed_loop-run (length input) p s input h v (omega arith), feed)

  step-Valid :
      (st : State) (p : FrameParser) (s : S) (b : ℕ)
      → p.state ≡ st
      → ValidAt max st p
      → b < 256
      → RoundValid max (step_at max on_packet st p s b)
  unfolding step_at
  step-Valid first_byte p s b e v hb = (refl, omega arith, omega arith, omega arith)
  step-Valid length_byte p s b e v hb = take_length-Valid max on_packet p s b hb v e
  step-Valid body_bytes p s b e v hb =
      block_end-Valid (record p { body = p.body ++ b ∷ [] }) s e
        (omega (arith, length-append p.body (b ∷ []))) v.1

  continue-Valid :
      (r : Round S) (rest : Bytes)
      → ((q : FrameParser) (t : S) → IsValid max q → RoundValid max (run max on_packet q t rest))
      → RoundValid max r
      → RoundValid max (continue max on_packet r rest)
  continue-Valid (more q t) rest ih w = ih q t w
  continue-Valid (stopped q t) rest ih w = w
  continue-Valid (failed e q t) rest ih w = w

  pub run-Valid :
      (p : FrameParser) (s : S) (input : Bytes)
      → All IsByte input
      → IsValid max p
      → RoundValid max (run max on_packet p s input)
  run-Valid p s [] h v = unfold run in v
  run-Valid p s (b ∷ rest) h v = rw (run-step max on_packet p s b rest) (
      continue-Valid (step max on_packet p s b) rest (λ q t w. run-Valid q t rest h.1 w)
        (step-Valid p.state p s b refl v h.0))
