-- ===== src/Protocol/Frame/Keeps.antt =====
-- include/minimosq/protocol/frame.hpp: what the callback keeps, `feed` keeps. `Go` holds when a packet is
-- delivered, `Done` when the input is over or the callback has stopped the parser.
use minimosq_mqtt.Prelude.{
  ℕ, zero, suc, ◌-◌, ◌≡◌, subst, inl, inr, Bool, true, Option, some, [], ◌∷◌, ◌++◌, arith, ltb,
  ◌==◌, if◌then◌else◌, Bool-cases, Option-cases, Bytes, length, take,
}
use minimosq_mqtt.Core.Span.{Err}
use minimosq_mqtt.Protocol.Frame.{
  State, first_byte, length_byte, body_bytes, FrameParser, Round, more, stopped, failed, add_digit,
  deliver, take_length, take_body, dispatch, feed_loop, result, feed,
}

module _ {S : Type 0} (max : ℕ) (on_packet : S → ℕ → Bytes → S × Bool) (Go Done : S → Type 0)
    (step : (s : S) (f : ℕ) (body : Bytes)
      → Go s
      → Done (on_packet s f body).0 × ((on_packet s f body).1 ≡ true → Go (on_packet s f body).0))
    (over : (s : S) → Go s → Done s) where
  RoundKeeps : Round S → Type 0
  RoundKeeps (more p s) = Go s
  RoundKeeps (stopped p s) = Done s
  RoundKeeps (failed e p s) = Done s

  deliver-RoundKeeps : (p : FrameParser) (s : S) → Go s → RoundKeeps (deliver max on_packet p s)
  unfolding deliver RoundKeeps
  deliver-RoundKeeps p s h =
      let (done, on) = step s p.first p.body h in
      elim (Bool-cases (on_packet s p.first p.body).1) [
        | inl d ↦ rw (d, deliver) (on d)
        | inr d ↦ rw (d, deliver) done
      ]

  take_length-RoundKeeps :
      (p : FrameParser) (s : S) (b : ℕ) → Go s → RoundKeeps (take_length max on_packet p s b)
  unfolding take_length RoundKeeps
  take_length-RoundKeeps p s b h =
      let failed_keeps = over s h in
      let delivered = deliver-RoundKeeps (record (add_digit p b) { body = [] }) s h in
      ground (arith, failed_keeps, delivered, h)

  dispatch-RoundKeeps :
      (st : State) (p : FrameParser) (s : S) (b : ℕ) (rest : Bytes)
      → Go s
      → RoundKeeps (dispatch max on_packet st p s b rest).0
  unfolding dispatch take_body RoundKeeps
  dispatch-RoundKeeps first_byte p s b rest h = h
  dispatch-RoundKeeps length_byte p s b rest h = take_length-RoundKeeps p s b h
  dispatch-RoundKeeps body_bytes p s b rest h =
      let n =
        if ltb (p.rem_len - length p.body) (length (b ∷ rest))
        then p.rem_len - length p.body
        else length (b ∷ rest) in
      let q = record p { body = p.body ++ take n (b ∷ rest) } in
      let delivered = deliver-RoundKeeps q s h in
      elim (Bool-cases (length q.body == q.rem_len)) [
        | inl d ↦ rw (d, dispatch, take_body) delivered
        | inr d ↦ rw (d, dispatch, take_body) h
      ]

  -- The loop goes on from a round.
  after_round :
      (go : FrameParser → S → Option (Round S)) (x r : Round S)
      → ((q : FrameParser) (t : S) → Go t → go q t ≡ some r → RoundKeeps r)
      → RoundKeeps x
      → (elim x as (λ _. Option (Round S)) [
        | more q t ↦ go q t
        | stopped q t ↦ some (stopped q t)
        | failed e q t ↦ some (failed e q t)
      ])
        ≡ some r
      → RoundKeeps r
  unfolding RoundKeeps
  after_round go (more q t) r ih h e = ih q t h e
  after_round go (stopped q t) r ih h e =
      subst RoundKeeps {x = stopped q t} {y = r} (grind (arith, e)) h
  after_round go (failed err q t) r ih h e =
      subst RoundKeeps {x = failed err q t} {y = r} (grind (arith, e)) h

  feed_loop-RoundKeeps :
      (n : ℕ) (p : FrameParser) (s : S) (input : Bytes) (r : Round S)
      → Go s
      → feed_loop max on_packet n p s input ≡ some r
      → RoundKeeps r
  unfolding feed_loop RoundKeeps
  feed_loop-RoundKeeps n p s [] r h e = subst RoundKeeps {x = more p s} {y = r} (grind (arith, e)) h
  feed_loop-RoundKeeps zero p s (b ∷ rest) r h e = absurd (cc)
  feed_loop-RoundKeeps (suc n) p s (b ∷ rest) r h e =
      let left = (dispatch max on_packet p.state p s b rest).1 in
      after_round (λ q t. feed_loop max on_packet n q t left)
        (dispatch max on_packet p.state p s b rest).0 r
        (λ q t g d. feed_loop-RoundKeeps n q t left r g d)
        (dispatch-RoundKeeps p.state p s b rest h) e

  result-Done : (r : Round S) → RoundKeeps r → Done (result max on_packet r).2
  unfolding RoundKeeps
  result-Done (more p s) h = over s h
  result-Done (stopped p s) h = h
  result-Done (failed e p s) h = h

  pub feed-Keeps :
      (p : FrameParser) (s : S) (input : Bytes) (e : Err) (q : FrameParser) (t : S)
      → Go s
      → feed max on_packet p s input ≡ some (e, q, t)
      → Done t
  unfolding feed
  feed-Keeps p s input e q t h fed =
      elim (Option-cases (feed_loop max on_packet (length input) p s input)) [
        | inl d ↦ absurd (grind (arith, d, fed))
        | inr (r, d) ↦
            subst Done {x = (result max on_packet r).2} {y = t} (grind (arith, d, fed))
              (result-Done r (feed_loop-RoundKeeps (length input) p s input r h d))
      ]
