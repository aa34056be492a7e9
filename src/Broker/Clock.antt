-- ===== src/Broker/Clock.antt =====
-- include/minimosq/broker/broker.hpp: the deadlines of a connection, on a clock of 32 bits that wraps.
use minimosq_mqtt.Prelude.{
  ℕ, ◌+◌, ◌-◌, ◌*◌, ◌%◌, ◌^◌, ◌≤◌, ◌<◌, ◌≡◌, ◌↔◌, Bool, true, arith, ltb, if◌then◌else◌,
}
use minimosq_mqtt.Broker.State.{Traits, Conn}

abbrev pub keepalive_window_ms : ℕ → ℕ
keepalive_window_ms keepalive_s = keepalive_s * 1500 % 2 ^ 32

unfoldable pub refresh_deadline : Traits → ℕ → Conn → Conn
refresh_deadline t now_ms c =
    if ltb 0 c.keepalive_s
    then record c { deadline_ms = (now_ms + keepalive_window_ms c.keepalive_s) % 2 ^ 32 }
    else if ltb 0 t.max_idle_ms
    then record c { deadline_ms = (now_ms + t.max_idle_ms) % 2 ^ 32 }
    else c

-- `static_cast<int32_t>(now - deadline) >= 0`: the difference on 32 bits has a clear sign bit.
abbrev pub deadline_passed : ℕ → ℕ → Bool
deadline_passed now deadline = ltb ((now + 2 ^ 32 - deadline) % 2 ^ 32) (2 ^ 31)

-- The window that a connection with a session is on: none with keep-alive and idle timeout both off.
abbrev pub window_ms : Traits → Conn → ℕ
window_ms t c = if ltb 0 c.keepalive_s then c.keepalive_s * 1500 else t.max_idle_ms

-- On the clock of 32 bits that wraps, with a keep-alive of 16 bits, an idle timeout below
-- 2^31 ms and one of the two set, a deadline that was refreshed has passed a time below 2^31
-- ms later exactly when the window of 1.5 times the keep-alive, or else the idle timeout, is
-- over.
pub deadline_passed-refresh_deadline :
    (t : Traits) (c : Conn) (now elapsed : ℕ)
    → now < 2 ^ 32
    → c.keepalive_s < 2 ^ 16
    → t.max_idle_ms < 2 ^ 31
    → 0 < window_ms t c
    → elapsed < 2 ^ 31
    → (deadline_passed ((now + elapsed) % 2 ^ 32) (refresh_deadline t now c).deadline_ms ≡ true)
      ↔ (window_ms t c ≤ elapsed)
unfolding refresh_deadline
deadline_passed-refresh_deadline t c now elapsed hn hk hi hw he =
    (λ e. ground arith, λ h. ground arith)
