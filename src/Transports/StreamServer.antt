-- ===== src/Transports/StreamServer.antt =====
-- include/minimosq/transports/posix/stream_server.hpp: the transport over stream sockets. `acts` is what it
-- did, the latest first; the code does not keep it.
pub mod Pass
pub mod Ledger
pub mod Streams
pub mod Calls
pub mod Sending
pub mod Writing
pub mod Accept
pub mod Loop
use minimosq_mqtt.Transports.Ring.{OutRing, new_ring, append, clear}
use minimosq_mqtt.Transports.Kernel.{Kernel}
use minimosq_mqtt.Transports.Kernel.Flush.{drain}
use minimosq_mqtt.Prelude.{
  ℕ, zero, suc, Bool, true, false, Option, none, some, List, [], ◌∷◌, if◌then◌else◌, Bytes, length,
  set, get_elem?, replicate,
}

pub record Slot : Type 0 where
  pub fd : Option ℕ
  pub dirty : Bool
  pub ring : OutRing

abbrev pub new_slot : ℕ → Slot
new_slot capacity = record { fd = none; dirty = false; ring = new_ring capacity }

abbrev pub shut : Slot → Slot
shut t = record t { fd = none; ring = clear t.ring; dirty = false }

-- A descriptor that `accept` gave or that was closed, a slot that a connection took, bytes that `send`
-- took for a slot, and bytes of it that the system took.
pub data Act : Type 0 where
  accepted_fd closed_fd taken : ℕ → Act
  queued wrote : ℕ → Bytes → Act

pub record StreamServer (K : Type 0) : Type 0 where
  pub slots : List Slot
  pub listen_fd : Option ℕ
  pub tcp_nodelay : Bool
  pub accept_retry_at_ms : ℕ
  pub accept_backoff_armed : Bool
  pub running : Bool
  pub kernel : K
  pub acts : List Act

module _ {K : Type 0} where
  unfoldable pub new_server : ℕ → ℕ → K → StreamServer K
  new_server max_conns capacity k = record {
    slots = replicate max_conns (new_slot capacity);
    listen_fd = none;
    tcp_nodelay = false;
    accept_retry_at_ms = 0;
    accept_backoff_armed = false;
    running = true;
    kernel = k;
    acts = [];
  }

  abbrev pub act : Act → StreamServer K → StreamServer K
  act a s = record s { acts = a ∷ s.acts }

  abbrev pub put_slot : ℕ → Slot → StreamServer K → StreamServer K
  put_slot ci t s = record s { slots = set s.slots ci t }

  -- `native_handle`, and the guards `ci >= MaxConns` and `fd < 0` of the others.
  unfoldable pub native_handle : ℕ → StreamServer K → Option ℕ
  native_handle ci s = elim (get_elem? s.slots ci) [ none ↦ none | some t ↦ t.fd ]

module _ {K : Type 0} (sys : Kernel K) (capacity : ℕ) where
  -- `flush` on a slot whose descriptor is open.
  unfoldable pub flush_slot : ℕ → ℕ → Slot → StreamServer K → StreamServer K
  flush_slot ci fd t s =
      let d = drain sys capacity fd t.ring s.kernel in
      act (wrote ci d.written)
        (put_slot ci (record t { ring = d.ring }) (record s { kernel = d.kernel }))

  unfoldable pub flush : ℕ → StreamServer K → StreamServer K
  flush ci s = elim (get_elem? s.slots ci) [
    | none ↦ s
    | some t ↦ elim t.fd [ none ↦ s | some fd ↦ flush_slot ci fd t s ]
  ]

  -- The bytes are in the ring.
  abbrev accept_bytes : ℕ → Bytes → Slot → OutRing → StreamServer K → StreamServer K
  accept_bytes ci bytes t ring s =
      act (queued ci bytes) (put_slot ci (record t { ring = ring; dirty = true }) s)

  -- The append, and what follows when the ring has no room; the descriptor is open.
  unfoldable pub append_slot : ℕ → Bytes → Slot → StreamServer K → Option (StreamServer K)
  append_slot ci bytes t s = elim (append capacity bytes t.ring) [
    | none ↦ none
    | some ring ↦ some (accept_bytes ci bytes t ring s)
  ]

  unfoldable pub retry_append : ℕ → Bytes → StreamServer K → StreamServer K × Bool
  retry_append ci bytes s = elim (get_elem? s.slots ci) [
    | none ↦ (s, false)
    | some t ↦ elim (append_slot ci bytes t s) [ none ↦ (s, false) | some s1 ↦ (s1, true) ]
  ]

  unfoldable pub send : StreamServer K → ℕ → Bytes → StreamServer K × Bool
  send s ci bytes = elim (get_elem? s.slots ci) [
    | none ↦ (s, false)
    | some t ↦ elim t.fd [
      | none ↦ (s, false)
      | some fd ↦ elim (append_slot ci bytes t s) [
        | some s1 ↦ (s1, true)
        | none ↦ retry_append ci bytes (flush ci s)
      ]
    ]
  ]

  -- The descriptor is closed and the slot free.
  unfoldable pub release_slot : ℕ → ℕ → StreamServer K → StreamServer K
  release_slot ci fd s = elim (get_elem? s.slots ci) [
    | none ↦ s
    | some t ↦
        act (closed_fd fd) (put_slot ci (shut t) (record s { kernel = sys.close_fd s.kernel fd }))
  ]

  unfoldable pub close : StreamServer K → ℕ → StreamServer K
  close s ci = elim (native_handle ci s) [ none ↦ s | some fd ↦ release_slot ci fd (flush ci s) ]

  -- `s.dirty = false` before the write of a pass.
  unfoldable pub flush_dirty : ℕ → StreamServer K → StreamServer K
  flush_dirty ci s = elim (get_elem? s.slots ci) [
    | none ↦ s
    | some t ↦ elim t.fd [
      | none ↦ s
      | some fd ↦ if t.dirty then flush ci (put_slot ci (record t { dirty = false }) s) else s
    ]
  ]

  -- The loop of `flush_all`, over so many slots from one on.
  unfoldable pub flush_from : ℕ → ℕ → StreamServer K → StreamServer K
  flush_from zero ci s = s
  flush_from (suc n) ci s = flush_from n (suc ci) (flush_dirty ci s)

  unfoldable pub flush_all : StreamServer K → StreamServer K
  flush_all s = flush_from (length s.slots) 0 s

  unfoldable pub close_listener : StreamServer K → StreamServer K
  close_listener s =
      let s1 = elim s.listen_fd as (λ _. StreamServer K) [
        | none ↦ s
        | some fd ↦ record s { kernel = sys.close_fd s.kernel fd; listen_fd = none }
      ] in
      record s1 { accept_backoff_armed = false; accept_retry_at_ms = 0 }

  -- The destructor.
  unfoldable pub close_slots : List Slot → K → K
  close_slots [] k = k
  close_slots (t ∷ slots) k =
      close_slots slots (elim t.fd [ none ↦ k | some fd ↦ sys.close_fd k fd ])

  unfoldable pub destroy : StreamServer K → K
  destroy s =
      let k = close_slots s.slots s.kernel in
      elim s.listen_fd [ none ↦ k | some fd ↦ sys.close_fd k fd ]

  abbrev pub stop_running : StreamServer K → StreamServer K
  stop_running s = record s { running = false }
