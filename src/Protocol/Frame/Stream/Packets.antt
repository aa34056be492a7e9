-- ===== src/Protocol/Frame/Stream/Packets.antt =====
-- Whole packets off the wire, and any cut of a stream into inputs.
use minimosq_mqtt.Prelude.{
  All-append, ℕ, zero, suc, ◌+◌, ◌*◌, ◌/◌, ◌^◌, ◌≤◌, ◌<◌, ◌≡◌, refl, sym, ap, subst, ◌∙◌, Bool,
  true, false, Option, none, some, List, [], ◌∷◌, ◌++◌, append_assoc, arith, ltb, ◌==◌,
  if◌then◌else◌, Bytes, IsByte, All, length, take, drop, take-append, drop-append,
}
use minimosq_mqtt.Prelude.{length-append}
use native.Mathlib.Nat.{pow-suc}
use minimosq_mqtt.Core.Span.{Err}
use minimosq_mqtt.Protocol.Constants.{max_remaining_length}
use minimosq_mqtt.Protocol.Writer.{varint_bytes, remaining_length}
use minimosq_mqtt.Protocol.Frame.{
  first_byte, length_byte, body_bytes, FrameParser, Round, more, stopped, failed, take_first,
  deliver, result, feed,
}
use minimosq_mqtt.Protocol.Frame.Bytewise.{
  IsValid, ValidAt, RoundValid, run, run_nil, continue, run-append, run_first, run_block,
}
use minimosq_mqtt.Protocol.Frame.Bytewise.Loop.{feed-run, run-Valid}
use minimosq_mqtt.Protocol.Frame.Stream.{packet, length_done, reads_length}

abbrev pub Fits : ℕ → ℕ × Bytes → Type 0
Fits max (first, body) =
    (first < 256) × All IsByte body × (length body ≤ max) × (length body ≤ max_remaining_length)

-- The parser after a packet: its fields are the packet's, its state is a packet boundary.
abbrev pub arrived : ℕ → Bytes → ℕ → FrameParser
arrived first body shift = record {
  body = body;
  rem_len = length body;
  state = first_byte;
  first = first;
  len_shift = shift;
}

-- The parser when the Remaining Length is complete and the body is still to come.
abbrev waiting : ℕ → Bytes → ℕ → FrameParser
waiting first body shift = record (arrived first body shift) { body = []; state = length_byte }

long_quotient : (k v : ℕ) → v < 128 ^ suc (suc k) → v / 128 < 128 ^ suc k
long_quotient k v h = grind (arith, pow-suc 128 (suc k))

varint-IsByte : (k v : ℕ) → v < 128 ^ suc k → All IsByte (varint_bytes k v)
unfolding varint_bytes
varint-IsByte zero v h = (omega arith, tt)
varint-IsByte (suc k) v h = ground (arith, varint-IsByte k (v / 128), long_quotient k v h)

packet-IsByte : {max : ℕ} (f : ℕ) (b : Bytes) → Fits max (f, b) → All IsByte (packet f b)
packet-IsByte f b h = (
  h.0,
  All-append IsByte (remaining_length (length b)) b (varint-IsByte 3 (length b) (omega arith)) h.1,
)

-- The packets' bytes in a row.
abbrev pub wire : List (ℕ × Bytes) → Bytes
wire [] = []
wire ((f, b) ∷ ps) = packet f b ++ wire ps

abbrev pub concat : List Bytes → Bytes
concat [] = []
concat (c ∷ cs) = c ++ concat cs

abbrev pub and_then {ℓ} :
    {S : Type ℓ}
    → Option (Err × FrameParser × S)
    → (FrameParser → S → Option (Err × FrameParser × S))
    → Option (Err × FrameParser × S)
and_then none k = none
and_then (some (Err.ok, q, t)) k = k q t
and_then (some (e, q, t)) k = some (e, q, t)

module _ {S : Type 0} (max : ℕ) (on_packet : S → ℕ → Bytes → S × Bool) where
  body_arrives :
      (q : FrameParser) (s : S) (x : ℕ) (b rest : Bytes)
      → q.state ≡ body_bytes
      → q.body ≡ []
      → q.rem_len ≡ suc (length b)
      → run max on_packet q s ((x ∷ b) ++ rest)
        ≡ continue max on_packet (deliver max on_packet (record q { body = x ∷ b }) s) rest
  body_arrives q s x b rest e fresh len =
      let input : Bytes = (x ∷ b) ++ rest in
      let taken : q.body ++ take (suc (length b)) input ≡ x ∷ b =
        ap (λ w. w ++ take (suc (length b)) input) fresh ∙ take-append (x ∷ b) rest in
      let whole : (suc (length b) == q.rem_len) ≡ true = ground arith in
      run_block max on_packet (length b) q s input e (omega (arith, ap length fresh))
        (omega (arith, length-append b rest))
      ∙ ap
          (λ w.
            continue max on_packet
              (if length w == q.rem_len
                then deliver max on_packet (record q { body = w }) s
                else more (record q { body = w }) s)
              (drop (suc (length b)) input))
          taken
      ∙ ap
          (λ t.
            continue max on_packet
              (if t
                then deliver max on_packet (record q { body = x ∷ b }) s
                else more (record q { body = x ∷ b }) s)
              (drop (suc (length b)) input))
          whole
      ∙ ap (continue max on_packet (deliver max on_packet (record q { body = x ∷ b }) s))
          (drop-append b rest)

  length_leads :
      (f : ℕ) (b : Bytes) (shift : ℕ) (s : S) (rest : Bytes)
      → length b ≤ max
      → continue max on_packet (length_done max on_packet (waiting f b shift) s) (b ++ rest)
        ≡ continue max on_packet (deliver max on_packet (arrived f b shift) s) rest
  unfolding length_done deliver
  length_leads f [] shift s rest fits =
      let small : ltb max 0 ≡ false = ground arith in rw small refl
  length_leads f (x ∷ b) shift s rest fits =
      let small : ltb max (suc (length b)) ≡ false = ground arith in
      let filled : (suc (length b) == 0) ≡ false = ground arith in
      rw (small, filled)
        (body_arrives (record (waiting f (x ∷ b) shift) { state = body_bytes }) s x b rest refl refl
          refl)

  run-packet :
      (f : ℕ) (b : Bytes) (p : FrameParser) (s : S) (rest : Bytes)
      → p.state ≡ first_byte
      → Fits max (f, b)
      → (shift : ℕ) × (run max on_packet p s (packet f b ++ rest)
          ≡ continue max on_packet (deliver max on_packet (arrived f b shift) s) rest)
  run-packet f b p s rest e (hf, hb, fits, small) =
      let q = take_first p f in
      let value : 0 + length b * 2 ^ 0 ≡ length b = omega arith in
      let (shift, read) =
        reads_length max on_packet 3 (length b) q s (b ++ rest) refl
          (refl, omega arith, omega arith, omega arith) (omega arith) (omega arith) in
      (
        shift,
        run_first max on_packet p s f ((remaining_length (length b) ++ b) ++ rest) e
            ∙ ap (run max on_packet q s) (append_assoc (remaining_length (length b)) b rest)
            ∙ read
            ∙ ap
                (λ n.
                  continue max on_packet
                    (length_done max on_packet (record (waiting f b shift) { rem_len = n }) s)
                    (b ++ rest))
                value
            ∙ length_leads f b shift s rest fits,
      )

  -- The packets handed to the callback one after the other.
  abbrev pub deliver_all : S → List (ℕ × Bytes) → S
  deliver_all s [] = s
  deliver_all s ((f, b) ∷ ps) = deliver_all (on_packet s f b).0 ps

  go_on_deliver :
      (f : ℕ) (b : Bytes) (shift : ℕ) (s : S)
      → (on_packet s f b).1 ≡ true
      → deliver max on_packet (arrived f b shift) s ≡ more (arrived f b shift) (on_packet s f b).0
  unfolding deliver
  go_on_deliver f b shift s h = rw h refl

  stop_deliver :
      (f : ℕ) (b : Bytes) (shift : ℕ) (s : S)
      → (on_packet s f b).1 ≡ false
      → deliver max on_packet (arrived f b shift) s
        ≡ stopped (arrived f b shift) (on_packet s f b).0
  unfolding deliver
  stop_deliver f b shift s h = rw h refl

  goes_on_inv :
      (r : Round S) (rest : Bytes) (q : FrameParser) (t : S)
      → continue max on_packet r rest ≡ more q t
      → (q1 : FrameParser) × (t1 : S) × (r ≡ more q1 t1) × (run max on_packet q1 t1 rest ≡ more q t)
  goes_on_inv (more q1 t1) rest q t e = (q1, t1, refl, e)
  goes_on_inv (stopped q1 t1) rest q t e = cc
  goes_on_inv (failed x q1 t1) rest q t e = cc

  boundary-Valid : (p : FrameParser) → p.state ≡ first_byte → IsValid max p
  boundary-Valid p e = subst (λ st. ValidAt max st p) (sym e) tt

  pub run_stream :
      ((s : S) (f : ℕ) (b : Bytes) → (on_packet s f b).1 ≡ true)
      → (ps : List (ℕ × Bytes)) (p : FrameParser) (s : S) → p.state ≡ first_byte
      → All (Fits max) ps
      → (q : FrameParser) × (q.state ≡ first_byte)
        × (run max on_packet p s (wire ps) ≡ more q (deliver_all s ps))
  run_stream goes_on [] p s e h = (p, e, run_nil max on_packet p s)
  run_stream goes_on ((f, b) ∷ ps) p s e h =
      let (shift, one) = run-packet f b p s (wire ps) e h.0 in
      let (q, at, rest) = run_stream goes_on ps (arrived f b shift) (on_packet s f b).0 refl h.1 in
      (
        q,
        at,
        one
            ∙ ap (λ r. continue max on_packet r (wire ps))
                (go_on_deliver f b shift s (goes_on s f b))
            ∙ rest,
      )

  -- One `feed` for each input that arrives, as long as they return `ok`.
  abbrev pub feed_all : FrameParser → S → List Bytes → Option (Err × FrameParser × S)
  feed_all p s [] = some (Err.ok, p, s)
  feed_all p s (c ∷ cs) = and_then (feed max on_packet p s c) (λ q t. feed_all q t cs)

  pub feed_all-run :
      (cs : List Bytes) (p : FrameParser) (s : S) (q : FrameParser) (t : S)
      → All (All IsByte) cs
      → IsValid max p
      → run max on_packet p s (concat cs) ≡ more q t
      → feed_all p s cs ≡ some (Err.ok, q, t)
  feed_all-run [] p s q t h v e = ground (arith, run_nil max on_packet p s)
  feed_all-run (c ∷ cs) p s q t h v e =
      let (q1, t1, here, later) =
        goes_on_inv (run max on_packet p s c) (concat cs) q t
          (sym (run-append max on_packet p s c (concat cs)) ∙ e) in
      let valid : IsValid max q1 =
        subst (RoundValid max) here (run-Valid max on_packet p s c h.0 v) in
      let fed : feed max on_packet p s c ≡ some (Err.ok, q1, t1) =
        feed-run max on_packet p s c h.0 v ∙ ap (λ r. some (result max on_packet r)) here in
      rw fed (feed_all-run cs q1 t1 q t h.1 valid later)

  -- A stream of packets that fit the limits, cut into inputs anywhere, is delivered packet by
  -- packet in order, with no error, and leaves the parser at a packet boundary, for a callback
  -- that always goes on and a parser that starts at a boundary.
  pub feed_all-deliver_all :
      ((s : S) (f : ℕ) (b : Bytes) → (on_packet s f b).1 ≡ true)
      → (ps : List (ℕ × Bytes)) (cs : List Bytes) (p : FrameParser) (s : S) → p.state ≡ first_byte
      → All (Fits max) ps
      → All (All IsByte) cs
      → concat cs ≡ wire ps
      → (q : FrameParser) × (q.state ≡ first_byte)
        × (feed_all p s cs ≡ some (Err.ok, q, deliver_all s ps))
  feed_all-deliver_all goes_on ps cs p s e fits bytes same =
      let (q, at, all) = run_stream goes_on ps p s e fits in
      (
        q,
        at,
        feed_all-run cs p s q (deliver_all s ps) bytes (boundary-Valid p e)
            (ap (run max on_packet p s) same ∙ all),
      )

  -- On a parser at a boundary and an input of bytes that starts with a packet that fits, whose
  -- delivery asks to stop, `feed` returns success at a packet boundary with that packet
  -- delivered and nothing after it.
  pub feed_stops :
      (f : ℕ) (b rest : Bytes) (p : FrameParser) (s : S)
      → p.state ≡ first_byte
      → Fits max (f, b)
      → All IsByte rest
      → (on_packet s f b).1 ≡ false
      → (q : FrameParser) × (q.state ≡ first_byte)
        × (feed max on_packet p s (packet f b ++ rest) ≡ some (Err.ok, q, (on_packet s f b).0))
  feed_stops f b rest p s e fits bytes stops =
      let (shift, one) = run-packet f b p s rest e fits in
      (
        arrived f b shift,
        refl,
        feed-run max on_packet p s (packet f b ++ rest)
              (All-append IsByte (packet f b) rest (packet-IsByte f b fits) bytes)
              (boundary-Valid p e)
            ∙ ap (λ r. some (result max on_packet r))
                (one ∙ ap (λ r. continue max on_packet r rest) (stop_deliver f b shift s stops)),
      )
