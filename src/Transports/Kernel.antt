-- ===== src/Transports/Kernel.antt =====
-- include/minimosq/transports/posix/common.hpp, and what stream_server.hpp and pipe.hpp in the same directory
-- ask of the system. The system calls are a parameter: each takes the state of the system and returns what
-- it answered. Descriptors are numbers; `none` is a negative one.
pub mod Flush
pub mod Drained
use minimosq_mqtt.Prelude.{
  ℕ, ◌+◌, ◌-◌, ◌*◌, ◌/◌, ◌%◌, ◌^◌, bit_or, ◌≡◌, refl, ◌⊎◌, inl, inr, Bool, true, false, List, ◌==◌,
  Bytes,
}

-- The values of `errno` that the code tells apart.
pub data Errno : Type 0 where
  eagain ewouldblock eintr econnaborted other_errno : Errno

-- A result of at least 0, or -1 and `errno`.
pub data Answer (A : Type 0) : Type 0 where
  done : A → Answer A
  failed : Errno → Answer A

pub Answer-cases :
    {A : Type 0} (a : Answer A) → ((x : A) × (a ≡ done x)) ⊎ ((e : Errno) × (a ≡ failed e))
Answer-cases (done x) = inl (x, refl)
Answer-cases (failed e) = inr (e, refl)

abbrev pub is_interrupted : Errno → Bool
is_interrupted eintr = true
is_interrupted _ = false

abbrev pub is_again : Errno → Bool
is_again eagain = true
is_again ewouldblock = true
is_again _ = false

abbrev pub is_aborted : Errno → Bool
is_aborted econnaborted = true
is_aborted _ = false

-- A `pollfd`: POLLIN is always asked for but for the write end of a pipe.
pub record PollFd : Type 0 where
  pub fd : ℕ
  pub want_in : Bool
  pub want_out : Bool

-- `revents`; `bad` is any other bit.
pub record Revents : Type 0 where
  pub readable : Bool
  pub writable : Bool
  pub hung_up : Bool
  pub error : Bool
  pub bad : Bool

-- `interrupts` bounds the signals that can still interrupt a call; the code does not ask for it.
pub record Kernel (K : Type 0) : Type 0 where
  pub clock : K → (ℕ × ℕ) × K
  pub read : K → ℕ → ℕ → Answer Bytes × K
  pub write : K → ℕ → Bytes → Answer ℕ × K
  pub close_fd : K → ℕ → K
  pub accept : K → ℕ → Answer ℕ × K
  pub poll : K → List PollFd → ℕ → Answer (ℕ × List Revents) × K
  pub get_flags : K → ℕ → Answer ℕ × K
  pub set_flags : K → ℕ → ℕ → Answer ℕ × K
  pub nonblock : ℕ
  pub no_delay : K → ℕ → K
  pub interrupts : K → ℕ

module _ {K : Type 0} (sys : Kernel K) where
  -- The seconds are cast to 64 bits, the milliseconds to 32.
  unfoldable pub posix_now_ms : K → ℕ × K
  posix_now_ms k =
      let ((sec, nsec), k1) = sys.clock k in
      ((sec % 2 ^ 64 * 1000 + nsec / 1000000) % 2 ^ 64 % 2 ^ 32, k1)

  -- `fcntl(fd, F_SETFL, flags | O_NONBLOCK) == 0`, on the flags that F_GETFL answered.
  unfoldable pub set_nonblocking : ℕ → K → Bool × K
  set_nonblocking fd k =
      let (flags, k1) = sys.get_flags k fd in
      elim flags [
        | failed e ↦ (false, k1)
        | done flags ↦
            let (answer, k2) = sys.set_flags k1 fd (bit_or flags sys.nonblock) in
            (elim answer [ failed e ↦ false | done n ↦ n == 0 ], k2)
      ]
