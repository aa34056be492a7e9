-- ===== src/Transports/Client.antt =====
-- include/minimosq/transport.hpp: the calls by which a transport drives the broker. `W` is the state of the
-- transport and of what it drives; the transport's part is got and put back.
pub mod OfBroker
use minimosq_mqtt.Prelude.{ℕ, ◌-◌, ◌≡◌, Bool, false, Bytes}
use minimosq_mqtt.Core.Span.{Err, is_ok}

pub record Client (T W : Type 0) : Type 0 where
  pub get : W → T
  pub put : T → W → W
  pub conn_open : ℕ → ℕ → W → Err × W
  pub conn_data : ℕ → Bytes → ℕ → W → Err × W
  pub conn_closed : ℕ → W → W
  pub tick : ℕ → W → W

module _ {T W : Type 0} (client : Client T W) where
  -- An operation of the transport.
  abbrev pub on_transport : (T → T) → W → W
  on_transport f w = client.put (f (client.get w)) w

-- "The broker never touches sockets": it reaches the transport by `send` and `close` alone, so what
-- these two keep every call of it keeps; a connection that it refuses does not reach the transport.
pub record IsClient {T W : Type 0} (send : T → ℕ → Bytes → T × Bool) (close : T → ℕ → T)
    (client : Client T W) : Type 1 where
  pub get-put : (t : T) (w : W) → client.get (client.put t w) ≡ t
  pub refused :
      (ci now : ℕ) (w : W)
      → is_ok (client.conn_open ci now w).0 ≡ false
      → client.get (client.conn_open ci now w).1 ≡ client.get w
  pub keeps :
      (P : T → Type 0)
      → ((t : T) (ci : ℕ) (bytes : Bytes) → P t → P (send t ci bytes).0)
      → ((t : T) (ci : ℕ) → P t → P (close t ci))
      → (w : W) → P (client.get w)
      → ((ci now : ℕ) → P (client.get (client.conn_open ci now w).1))
        × ((ci : ℕ) (bytes : Bytes) (now : ℕ) → P (client.get (client.conn_data ci bytes now w).1))
        × ((ci : ℕ) → P (client.get (client.conn_closed ci w)))
        × ((now : ℕ) → P (client.get (client.tick now w)))
