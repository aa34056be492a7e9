-- ===== src/Transports/TlsAdapter.antt =====
-- include/minimosq/transports/tls_adapter.hpp: the seam between a raw transport and the broker. The engine
-- is a parameter, as is the raw transport. A buffer is what it holds; the engine is handed a buffer and
-- returns it with the length that it reports, whatever that is.
pub mod Driver
pub mod Composition
pub mod Null
use minimosq_mqtt.Prelude.{
  ℕ, ◌-◌, Bool, true, false, not, ◌||◌, Option, none, some, List, [], ◌∷◌, ltb, ◌==◌, if◌then◌else◌,
  Bytes, length, take, set, get_elem?, replicate,
}
use minimosq_mqtt.Transports.Capacity.{published, narrower_capacity}

-- The result of `encrypt` and of `drain`.
pub record Report : Type 0 where
  pub ok : Bool
  pub buf : Bytes
  pub len : ℕ

-- The result of `on_ciphertext`.
pub record Opened : Type 0 where
  pub ok : Bool
  pub plain : Bytes
  pub plain_len : ℕ
  pub cipher : Bytes
  pub cipher_len : ℕ

-- `drain` is `none` for an engine that does not offer it, and `record_overhead` for one that does not say.
pub record Engine (E : Type 0) : Type 0 where
  pub reset : E → E
  pub on_ciphertext : E → Bytes → Bytes → Bytes → Opened × E
  pub encrypt : E → Bytes → Bytes → Report × E
  pub drain : Option (E → Bytes → Report × E)
  pub record_overhead : Option ℕ

-- The loop that copies a span into a buffer.
unfoldable pub copy_into : Bytes → Bytes → Bytes
copy_into [] buf = buf
copy_into (b ∷ bytes) [] = []
copy_into (b ∷ bytes) (x ∷ buf) = b ∷ copy_into bytes buf

unfoldable pub null_on_ciphertext : Unit {0} → Bytes → Bytes → Bytes → Opened × Unit {0}
null_on_ciphertext e input plain cipher =
    if ltb (length plain) (length input)
    then (record { ok = false; plain = plain; plain_len = 0; cipher = cipher; cipher_len = 0 }, e)
    else (
      record {
        ok = true;
        plain = copy_into input plain;
        plain_len = length input;
        cipher = cipher;
        cipher_len = 0;
      },
      e,
    )

unfoldable pub null_encrypt : Unit {0} → Bytes → Bytes → Report × Unit {0}
null_encrypt e plain cipher =
    if ltb (length cipher) (length plain)
    then (record { ok = false; buf = cipher; len = 0 }, e)
    else (record { ok = true; buf = copy_into plain cipher; len = length plain }, e)

-- `NullTlsEngine`
abbrev pub null_tls_engine : Engine (Unit {0})
null_tls_engine = record {
  reset = λ e. e;
  on_ciphertext = null_on_ciphertext;
  encrypt = null_encrypt;
  drain = none;
  record_overhead = none;
}

-- The published constants; `max` and `out_buf` are what the raw transport publishes.
unfoldable pub max_connections : ℕ → Option ℕ → ℕ
max_connections max_conns max = narrower_capacity max_conns (published max)

unfoldable pub cipher_capacity : ℕ → Option ℕ → ℕ
cipher_capacity buf_size out_buf = narrower_capacity buf_size (published out_buf)

unfoldable pub out_buf_size : {E : Type 0} → Engine E → ℕ → Option ℕ → ℕ
out_buf_size engine buf_size out_buf =
    cipher_capacity buf_size out_buf - published engine.record_overhead

-- One engine and one flag for each published connection.
pub record TlsAdapter (E T : Type 0) : Type 0 where
  pub raw : T
  pub engines : List E
  pub engine_open : List Bool
  pub plain : Bytes
  pub cipher_out : Bytes
  pub cipher : Bytes

unfoldable pub new_adapter : {E T : Type 0} → E → ℕ → ℕ → T → TlsAdapter E T
new_adapter e connections buf_size raw = record {
  raw = raw;
  engines = replicate connections e;
  engine_open = replicate connections false;
  plain = replicate buf_size 0;
  cipher_out = replicate buf_size 0;
  cipher = replicate buf_size 0;
}

module _ {E T : Type 0} (engine : Engine E) (raw_send : T → ℕ → Bytes → T × Bool)
    (raw_close : T → ℕ → T) (buf_size : ℕ) where
  abbrev pub send_raw : ℕ → Bytes → TlsAdapter E T → TlsAdapter E T × Bool
  send_raw ci bytes a =
      let (raw, taken) = raw_send a.raw ci bytes in (record a { raw = raw }, taken)

  -- The report on an encrypted packet.
  unfoldable pub send_report : ℕ → Report → TlsAdapter E T → TlsAdapter E T × Bool
  send_report ci r a =
      if not r.ok || ltb buf_size r.len
      then (a, false)
      else if r.len == 0
      then (a, true)
      else send_raw ci (take r.len r.buf) a

  unfoldable pub send : TlsAdapter E T → ℕ → Bytes → TlsAdapter E T × Bool
  send a ci plaintext = elim (get_elem? a.engines ci) [
    | none ↦ (a, false)
    | some e ↦
        let (r, e1) = engine.encrypt e plaintext a.cipher in
        send_report ci r (record a { engines = set a.engines ci e1; cipher = r.buf })
  ]

  unfoldable pub close : TlsAdapter E T → ℕ → TlsAdapter E T
  close a ci = elim (get_elem? a.engine_open ci) [
    | none ↦ a
    | some on ↦ record a { engine_open = set a.engine_open ci false; raw = raw_close a.raw ci }
  ]
