-- ===== src/Transports/Kernel/Flush.antt =====
-- include/minimosq/transports/posix/stream_server.hpp and pipe.hpp: the loop of `flush`, which is the same
-- text in both but for `send` in the one and `write` in the other.
use minimosq_mqtt.Transports.Ring.{OutRing, is_empty, front_chunk, consume}
use minimosq_mqtt.Transports.Rounds.{Round, go_on, stop}
use minimosq_mqtt.Transports.Kernel.{Kernel, Answer, done, failed, eintr, is_interrupted}
use minimosq_mqtt.Prelude.{
  ℕ, zero, suc, ◌+◌, ◌≤◌, ◌<◌, ◌≡◌, Option, none, some, [], ◌++◌, if◌then◌else◌, Bytes, length,
  take,
}

-- A ring that is written out, the system, and what the system has taken of it.
pub record Drain (K : Type 0) : Type 0 where
  pub ring : OutRing
  pub kernel : K
  pub written : Bytes

module _ {K : Type 0} (sys : Kernel K) (capacity : ℕ) where
  unfoldable pub answered : Bytes → Answer ℕ → Drain K → Round (Drain K)
  answered chunk (done zero) d = stop d
  answered chunk (done (suc n)) d = go_on (record d {
    ring = consume capacity (suc n) d.ring;
    written = d.written ++ take (suc n) chunk;
  })
  answered chunk (failed e) d = if is_interrupted e then go_on d else stop d

  unfoldable pub drain_round : ℕ → Drain K → Round (Drain K)
  drain_round fd d =
      if is_empty d.ring
      then stop d
      else (let chunk = front_chunk capacity d.ring in
          let (w, k) = sys.write d.kernel fd chunk in answered chunk w (record d { kernel = k }))

  unfoldable pub drain_loop : ℕ → ℕ → Drain K → Option (Drain K)
  drain_loop zero fd d = none
  drain_loop (suc fuel) fd d = elim (drain_round fd d) [
    | go_on e ↦ drain_loop fuel fd e
    | stop e ↦ some e
  ]

  -- A round that goes on takes a byte out of the ring or uses up a signal.
  abbrev pub drain_fuel : Drain K → ℕ
  drain_fuel d = suc (d.ring.len + sys.interrupts d.kernel)

  unfoldable pub drain : ℕ → OutRing → K → Drain K
  drain fd ring k =
      let d : Drain K = record { ring = ring; kernel = k; written = [] } in
      elim (drain_loop (drain_fuel d) fd d) [ none ↦ d | some e ↦ e ]

-- A write takes no more than it is given; one that a signal interrupts uses the signal up, and a write
-- brings none.
pub record IsKernel {K : Type 0} (sys : Kernel K) : Type 0 where
  pub taken :
      (k : K) (fd : ℕ) (bytes : Bytes) (n : ℕ)
      → (sys.write k fd bytes).0 ≡ done n
      → n ≤ length bytes
  pub interrupted :
      (k : K) (fd : ℕ) (bytes : Bytes)
      → (sys.write k fd bytes).0 ≡ failed eintr
      → sys.interrupts (sys.write k fd bytes).1 < sys.interrupts k
  pub calm :
      (k : K) (fd : ℕ) (bytes : Bytes) → sys.interrupts (sys.write k fd bytes).1 ≤ sys.interrupts k
