-- ===== src/Broker/Healthy/Reachable.antt =====
-- include/minimosq/broker/broker.hpp: the brokers that the calls of a transport lead to.
use minimosq_mqtt.Prelude.{
  ℕ, zero, suc, ◌<◌, ◌≡◌, refl, some, none, arith, Bytes, replicate, length-replicate, get_elem?,
}
use minimosq_mqtt.Core.Span.{Err}
use minimosq_mqtt.Core.Pool.{empty_pool}
use minimosq_mqtt.Broker.State.{Env, Broker, new_broker}
use minimosq_mqtt.Broker.Entry.{conn_open, conn_data, conn_closed, tick}
use minimosq_mqtt.Broker.Robust.{calls-Robust}
use minimosq_mqtt.Broker.Healthy.{IsHealthy, IsHealthy-Robust}

-- A new broker, and what any call of the transport makes of one that was reached.
pub data Reachable {T A : Type 0} (env : Env T A) (tr : T) : Broker T A → Type 0 where
  start : Reachable env tr (new_broker env tr)
  opened :
      (ci now : ℕ) (b : Broker T A)
      → Reachable env tr b
      → Reachable env tr (conn_open env ci now b).1
  fed :
      (ci now : ℕ) (input : Bytes) (b b' : Broker T A) (e : Err)
      → conn_data env ci input now b ≡ some (e, b')
      → Reachable env tr b
      → Reachable env tr b'
  hung_up : (ci : ℕ) (b : Broker T A) → Reachable env tr b → Reachable env tr (conn_closed env ci b)
  ticked : (now : ℕ) (b : Broker T A) → Reachable env tr b → Reachable env tr (tick env now b)

module _ {T A : Type 0} (env : Env T A) (tr : T) where
  free_slot : {B : Type 0} (n i : ℕ) (s : B) → get_elem? (replicate n none) i ≡ some (some s) → ⊥
  free_slot zero i s e = cc
  free_slot (suc n) zero s e = absurd (grind (arith, e))
  free_slot (suc n) (suc i) s e = free_slot n i s e

  new_broker-IsHealthy : IsHealthy env (new_broker env tr)
  unfolding new_broker empty_pool
  new_broker-IsHealthy = record {
    ended = refl;
    counter = omega arith;
    table = length-replicate env.max_sessions none;
    queues = λ i s e. absurd (free_slot env.max_sessions i s e);
  }

  -- With fewer than 65535 messages to a queue and fewer than 65535 sessions, no call of the transport on a
  -- broker that calls have led to from a new one hangs in a search for a packet identifier or a client id;
  -- each queue is within its capacity, and the identifiers and the counter stay ones of 16 bits.
  pub reachable-IsHealthy :
      env.max_pending_per_session < 65535
      → env.max_sessions < 65535
      → (b : Broker T A) → Reachable env tr b
      → IsHealthy env b
  reachable-IsHealthy few small b start = new_broker-IsHealthy
  reachable-IsHealthy few small b (opened ci now c r) =
      (calls-Robust env (IsHealthy env) (IsHealthy-Robust env few small) c
          (reachable-IsHealthy few small c r)).0
        ci now
  reachable-IsHealthy few small b (fed ci now input c d e got r) =
      (calls-Robust env (IsHealthy env) (IsHealthy-Robust env few small) c
          (reachable-IsHealthy few small c r)).1
        ci input now e b got
  reachable-IsHealthy few small b (hung_up ci c r) =
      (calls-Robust env (IsHealthy env) (IsHealthy-Robust env few small) c
          (reachable-IsHealthy few small c r)).2
        ci
  reachable-IsHealthy few small b (ticked now c r) =
      (calls-Robust env (IsHealthy env) (IsHealthy-Robust env few small) c
          (reachable-IsHealthy few small c r)).3
        now
