-- ===== src/Transports/Capacity.antt =====
-- include/minimosq/transport.hpp: the capacities that a transport publishes, and the transport that swallows
-- everything.
use minimosq_mqtt.Prelude.{ℕ, Bool, true, Option, none, some, ltb, ◌==◌, if◌then◌else◌, Bytes}

-- `transport_max_connections` and `transport_out_buf_size`: 0 for a transport that does not say.
abbrev pub published : Option ℕ → ℕ
published none = 0
published (some n) = n

unfoldable pub narrower_capacity : ℕ → ℕ → ℕ
narrower_capacity own wrapped =
    if wrapped == 0 then own else if ltb wrapped own then wrapped else own

-- `NullTransport`, which has no state.
unfoldable pub null_send : Unit {0} → ℕ → Bytes → Unit {0} × Bool
null_send t conn bytes = (t, true)

unfoldable pub null_close : Unit {0} → ℕ → Unit {0}
null_close t conn = t
