-- ===== src/Transports/Pipe.antt =====
-- include/minimosq/transports/posix/pipe.hpp: the transport over a pair of descriptors. `acts` is what it did,
-- the latest first; the code does not keep it.
pub mod Pass
pub mod Streams
pub mod Opening
pub mod Calls
pub mod Loop
use minimosq_mqtt.Prelude.{
  ℕ, Bool, true, false, not, ◌||◌, Option, none, some, List, [], ◌∷◌, ◌==◌, if◌then◌else◌, Bytes,
}
use minimosq_mqtt.Transports.Ring.{OutRing, new_ring, append, clear}
use minimosq_mqtt.Transports.Kernel.{Kernel, set_nonblocking}
use minimosq_mqtt.Transports.Kernel.Flush.{drain}

-- The descriptors that `open` took into its hands, one that was closed, bytes that `send` took, and bytes
-- that the system took.
pub data Act : Type 0 where
  took : Option ℕ → Option ℕ → Act
  closed_fd : ℕ → Act
  queued wrote : Bytes → Act

pub record Pipe (K : Type 0) : Type 0 where
  pub ring : OutRing
  pub rfd : Option ℕ
  pub wfd : Option ℕ
  pub started : Bool
  pub dirty : Bool
  pub running : Bool
  pub kernel : K
  pub acts : List Act

abbrev pub same_fd : Option ℕ → Option ℕ → Bool
same_fd (some a) (some b) = a == b
same_fd _ _ = false

abbrev pub is_open : Option ℕ → Bool
is_open none = false
is_open (some fd) = true

module _ {K : Type 0} where
  unfoldable pub new_pipe : ℕ → K → Pipe K
  new_pipe capacity k = record {
    ring = new_ring capacity;
    rfd = none;
    wfd = none;
    started = false;
    dirty = false;
    running = true;
    kernel = k;
    acts = [];
  }

  abbrev pub act : Act → Pipe K → Pipe K
  act a p = record p { acts = a ∷ p.acts }

  unfoldable pub is_closed : Pipe K → Bool
  is_closed p = not (is_open p.rfd)

  -- `r_stale` and `w_stale`: a descriptor that was held is none any more.
  abbrev pub unless_held : Pipe K → Option ℕ → Option ℕ
  unless_held was fd = if same_fd fd was.rfd || same_fd fd was.wfd then none else fd

  abbrev pub stop_running : Pipe K → Pipe K
  stop_running p = record p { running = false }

module _ {K : Type 0} (sys : Kernel K) where
  unfoldable pub shut_fd : Option ℕ → Pipe K → Pipe K
  shut_fd none p = p
  shut_fd (some fd) p = act (closed_fd fd) (record p { kernel = sys.close_fd p.kernel fd })

  -- A descriptor that is both ends is closed once.
  unfoldable pub close_pair : Option ℕ → Option ℕ → Pipe K → Pipe K
  close_pair a b p = shut_fd (if same_fd b a then none else b) (shut_fd a p)

  unfoldable pub close_fds : Pipe K → Pipe K
  close_fds p = record (close_pair p.rfd p.wfd p) {
    rfd = none;
    wfd = none;
    ring = clear p.ring;
    dirty = false;
  }

  -- The descriptors are made nonblocking, both of them, and kept if that went well.
  unfoldable pub adopt : ℕ → ℕ → Pipe K → Bool × Pipe K
  adopt r w p =
      let (read_ok, k) = set_nonblocking sys r p.kernel in
      let (write_ok, k1) = set_nonblocking sys w k in
      let p1 = record p { kernel = k1 } in
      if not read_ok || not write_ok
      then (false, close_pair (some r) (some w) p1)
      else (true, record p1 { rfd = some r; wfd = some w; started = false })

  -- Behind the close of the old pair, with what of the new one is not stale.
  unfoldable pub take_pair : Option ℕ → Option ℕ → Pipe K → Bool × Pipe K
  take_pair (some r) (some w) p = adopt r w (act (took (some r) (some w)) p)
  take_pair a b p = (false, close_pair a b (act (took a b) p))

  unfoldable pub open_fds : Option ℕ → Option ℕ → Pipe K → Bool × Pipe K
  open_fds read_fd write_fd p =
      take_pair (unless_held p read_fd) (unless_held p write_fd) (close_fds p)

module _ {K : Type 0} (sys : Kernel K) (capacity : ℕ) where
  unfoldable pub flush : Pipe K → Pipe K
  flush p = elim p.wfd [
    | none ↦ p
    | some fd ↦
        let d = drain sys capacity fd p.ring p.kernel in
        act (wrote d.written) (record p { ring = d.ring; kernel = d.kernel })
  ]

  unfoldable pub try_append : Bytes → Pipe K → Option (Pipe K)
  try_append bytes p = elim (append capacity bytes p.ring) [
    | none ↦ none
    | some ring ↦ some (act (queued bytes) (record p { ring = ring; dirty = true }))
  ]

  -- The index is not read.
  unfoldable pub send : Pipe K → ℕ → Bytes → Pipe K × Bool
  send p ci bytes = if not (is_open p.wfd) then (p, false) else elim (try_append bytes p) [
    | some p1 ↦ (p1, true)
    | none ↦ elim (try_append bytes (flush p)) [ none ↦ (flush p, false) | some p1 ↦ (p1, true) ]
  ]

  unfoldable pub close : Pipe K → ℕ → Pipe K
  close p ci = close_fds sys (flush p)

  unfoldable pub flush_pass : Pipe K → Pipe K
  flush_pass p = if p.dirty then flush (record p { dirty = false }) else p
