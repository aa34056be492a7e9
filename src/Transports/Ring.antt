-- ===== src/Transports/Ring.antt =====
-- include/minimosq/transports/posix/common.hpp: the output ring of a connection, `OutRing`. The capacity is
-- the template's argument.
pub mod Reading
pub mod Queue
use minimosq_mqtt.Prelude.{
  ℕ, suc, ◌+◌, ◌-◌, ◌%◌, Bool, Option, none, some, [], ◌∷◌, ltb, ◌==◌, if◌then◌else◌, Bytes, length,
  take, drop, set, replicate,
}

-- What the array holds before the first write to it is not read.
pub record OutRing : Type 0 where
  pub buf : Bytes
  pub head : ℕ
  pub len : ℕ

unfoldable pub new_ring : ℕ → OutRing
new_ring capacity = record { buf = replicate capacity 0; head = 0; len = 0 }

unfoldable pub is_empty : OutRing → Bool
is_empty r = r.len == 0

-- The loop of `append`, which writes at `i % Capacity` from an index on.
unfoldable pub write_from : ℕ → ℕ → Bytes → Bytes → Bytes
write_from capacity i [] buf = buf
write_from capacity i (b ∷ bytes) buf = write_from capacity (suc i) bytes (set buf (i % capacity) b)

-- `none` is the result false, which leaves the ring as it is.
unfoldable pub append : ℕ → Bytes → OutRing → Option OutRing
append capacity bytes r =
    if ltb capacity (r.len + length bytes)
    then none
    else some (record r {
      buf = write_from capacity (r.head + r.len) bytes r.buf;
      len = r.len + length bytes;
    })

unfoldable pub front_chunk : ℕ → OutRing → Bytes
front_chunk capacity r =
    let tail_room = capacity - r.head in
    take (if ltb r.len tail_room then r.len else tail_room) (drop r.head r.buf)

unfoldable pub consume : ℕ → ℕ → OutRing → OutRing
consume capacity n r =
    let m = if ltb r.len n then r.len else n in
    record r { head = (r.head + m) % capacity; len = r.len - m }

unfoldable pub clear : OutRing → OutRing
clear r = record r { head = 0; len = 0 }
