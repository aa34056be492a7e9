-- ===== src/Transports/TlsAdapter/Null.antt =====
-- include/minimosq/transports/tls_adapter.hpp: the pass-through engine, and the room that a record has.
use minimosq_mqtt.Prelude.{
  ℕ, ◌+◌, ◌≤◌, ◌<◌, ◌≡◌, refl, ap, ◌⊎◌, inl, inr, Bool, true, false, Option, some, [], ◌∷◌, arith,
  ltb, ◌==◌, if◌then◌else◌, Bool-cases, Bytes, length, take, set, get_elem?,
}
use minimosq_mqtt.Transports.Capacity.{published, narrower_capacity}
use minimosq_mqtt.Transports.Client.{Client}
use minimosq_mqtt.Transports.TlsAdapter.{
  Engine, TlsAdapter, copy_into, null_on_ciphertext, null_encrypt, null_tls_engine, send_report,
  send, cipher_capacity, out_buf_size,
}
use minimosq_mqtt.Transports.TlsAdapter.Driver.{pass_plain, data_report, conn_data}

copy_into-take :
    (bytes buf : Bytes)
    → length bytes ≤ length buf
    → take (length bytes) (copy_into bytes buf) ≡ bytes
unfolding copy_into
copy_into-take [] buf l = refl
copy_into-take (b ∷ bytes) [] l = absurd (omega arith)
copy_into-take (b ∷ bytes) (x ∷ buf) l = ap (◌∷◌ b) (copy_into-take bytes buf (omega arith))

module _ {T : Type 0} (raw_send : T → ℕ → Bytes → T × Bool) (raw_close : T → ℕ → T) (n : ℕ) where
  abbrev Adapter : Type 0
  Adapter = TlsAdapter (Unit {0}) T

  -- The raw transport behind a send, and the answer.
  abbrev pub passed : Adapter × Bool → T × Bool
  passed r = (r.0.raw, r.1)

  -- With the pass-through engine and a buffer of the full size, `send` on a connection of the
  -- adapter is the `send` of the raw transport, but for a span longer than the buffer, which is
  -- refused, and an empty one, which is not passed on.
  pub null-send :
      (a : Adapter) (ci : ℕ) (plaintext : Bytes)
      → get_elem? a.engines ci ≡ some tt
      → length a.cipher ≡ n
      → passed (send null_tls_engine raw_send raw_close n a ci plaintext) ≡ (
          if ltb n (length plaintext)
          then (a.raw, false)
          else if length plaintext == 0
          then (a.raw, true)
          else raw_send a.raw ci plaintext)
  unfolding send null_encrypt send_report
  null-send a ci plaintext e size = elim (Bool-cases (ltb n (length plaintext))) [
    | inl big ↦
        let refused : ltb (length a.cipher) (length plaintext) ≡ true = ground (arith, size, big) in
        rw (e, refused, big, send) refl
    | inr l ↦
        let fits : ltb (length a.cipher) (length plaintext) ≡ false = ground (arith, size, l) in
        let same = copy_into-take plaintext a.cipher (ground (arith, size, l)) in
        elim (Bool-cases (length plaintext == 0)) [
          | inl z ↦ rw (e, fits, l, z, send) refl
          | inr z ↦ rw (e, fits, l, z, same, send) refl
        ]
  ]

  -- The bytes that come in on a connection are what the broker is given, within the buffer.
  pub null-conn_data :
      {W : Type 0} (client : Client Adapter W) (ci now : ℕ) (input : Bytes) (w : W)
      → get_elem? (client.get w).engines ci ≡ some tt
      → length (client.get w).plain ≡ n
      → 0 < length input
      → length input ≤ n
      → conn_data null_tls_engine raw_send raw_close n client ci input now w
        ≡ client.conn_data ci input now (
            client.put
              (record (client.get w) {
                engines = set (client.get w).engines ci tt;
                plain = copy_into input (client.get w).plain;
              })
              w)
  unfolding conn_data null_on_ciphertext data_report pass_plain
  null-conn_data client ci now input w e size pos l =
      let a = client.get w in
      let fits : ltb (length a.plain) (length input) ≡ false = ground (arith, size, l) in
      let whole : ltb n (length input) ≡ false = ground (arith, l) in
      let some_of : (length input == 0) ≡ false = ground (arith, pos) in
      let none_out : ltb n 0 ≡ false = ground arith in
      rw
        (
          e,
          fits,
          whole,
          some_of,
          none_out,
          copy_into-take input a.plain (omega (arith, size, l)),
          conn_data,
        )
        refl

-- When the ciphertext has room for more than the overhead of a record, a packet within the
-- published buffer size and a record that adds no more than that overhead fit the buffer of the
-- adapter and the one that the raw transport publishes.
pub room_for_record :
    {E : Type 0} (engine : Engine E) (buf_size : ℕ) (out_buf : Option ℕ) (plaintext ciphertext : ℕ)
    → published engine.record_overhead < cipher_capacity buf_size out_buf
    → plaintext ≤ out_buf_size engine buf_size out_buf
    → ciphertext ≤ plaintext + published engine.record_overhead
    → (ciphertext ≤ buf_size) × ((published out_buf ≡ 0) ⊎ (ciphertext ≤ published out_buf))
unfolding out_buf_size cipher_capacity narrower_capacity
room_for_record engine buf_size out_buf p c o l g = ground arith
