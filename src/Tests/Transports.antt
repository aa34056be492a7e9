-- ===== src/Tests/Transports.antt =====
-- The theorems on the transports at concrete inputs: a system whose writes take one byte each, once the
-- signals are used up, and a broker of two connections behind it.
use minimosq_mqtt.Prelude.{
  ℕ, zero, suc, ◌+◌, ◌≤◌, ◌<◌, ◌≡◌, refl, ◌⊎◌, Bool, true, false, some, List, [], ◌∷◌, ◌++◌, arith,
  Bytes, length,
}
use minimosq_mqtt.Broker.State.{Traits, default_traits, Env, allow_all, Broker, new_broker}
use minimosq_mqtt.Transports.Ring.{OutRing, is_empty}
use minimosq_mqtt.Transports.Ring.Queue.{IsRing, contents, IsQueue, ring-IsQueue}
use minimosq_mqtt.Transports.Kernel.{Kernel, Answer, done, failed, eintr, eagain, Revents}
use minimosq_mqtt.Transports.Kernel.Flush.{IsKernel, drain}
use minimosq_mqtt.Transports.Kernel.Drained.{IsFlushed, drain_total, drain_empties, is_refusal}
use minimosq_mqtt.Transports.Client.OfBroker.{broker_client, broker_client-IsClient}
use minimosq_mqtt.Transports.StreamServer.{Slot, StreamServer, new_server, send, close}
use minimosq_mqtt.Transports.StreamServer.Ledger.{IsSound}
use minimosq_mqtt.Transports.StreamServer.Streams.{kept-IsSound}
use minimosq_mqtt.Transports.StreamServer.Sending.{new_server-IsSound, Holds, send_outcome}
use minimosq_mqtt.Transports.StreamServer.Pass.{poll_once}
use minimosq_mqtt.Transports.StreamServer.Loop.{IsWritten, poll_once-IsWritten}
use minimosq_mqtt.Transports.Pipe.{Pipe, new_pipe, open_fds}
use minimosq_mqtt.Transports.Pipe.Streams
use minimosq_mqtt.Transports.Pipe.Streams.{new_pipe-IsSound, open_fds-IsSound}
use minimosq_mqtt.Transports.Pipe.Opening.{is_shut, open_fds-closes}
use minimosq_mqtt.Transports.Count.{one_if, sum_of}
use minimosq_mqtt.Transports.Pipe.Pass
use minimosq_mqtt.Transports.Pipe.Loop.{poll_once-IsSound}
use minimosq_mqtt.Transports.TlsAdapter.{
  TlsAdapter, Engine, new_adapter, null_tls_engine, cipher_capacity, out_buf_size,
}
use minimosq_mqtt.Transports.TlsAdapter
use minimosq_mqtt.Transports.Pipe
use minimosq_mqtt.Transports.Capacity.{published, narrower_capacity}
use minimosq_mqtt.Transports.TlsAdapter.Null.{passed, null-send, room_for_record}

abbrev toy_write : ℕ → ℕ → Bytes → Answer ℕ × ℕ
toy_write zero fd [] = (done 0, zero)
toy_write zero fd (b ∷ bytes) = (done 1, zero)
toy_write (suc k) fd bytes = (failed eintr, k)

abbrev readable : Revents
readable = record { readable = true; writable = false; hung_up = false; error = false; bad = false }

-- The state is the number of signals that are still to come.
abbrev toy : Kernel ℕ
toy = record {
  clock = λ k. ((5, 7000000), k);
  read = λ k fd size. (failed eagain, k);
  write = toy_write;
  close_fd = λ k fd. k;
  accept = λ k fd. (done 9, k);
  poll = λ k fds timeout. (done (1, readable ∷ []), k);
  get_flags = λ k fd. (done 2, k);
  set_flags = λ k fd flags. (done 0, k);
  nonblock = 2048;
  no_delay = λ k fd. k;
  interrupts = λ k. k;
}

toy-IsKernel : IsKernel toy
toy-IsKernel = record { taken = taken; interrupted = interrupted; calm = calm }
  where
    taken :
        (k fd : ℕ) (bytes : Bytes) (n : ℕ) → (toy_write k fd bytes).0 ≡ done n → n ≤ length bytes
    taken zero fd [] n e = grind (arith, e)
    taken zero fd (b ∷ bytes) n e = grind (arith, e)
    taken (suc k) fd bytes n e = absurd (grind (arith, e))

    interrupted :
        (k fd : ℕ) (bytes : Bytes)
        → (toy_write k fd bytes).0 ≡ failed eintr
        → (toy_write k fd bytes).1 < k
    interrupted zero fd [] e = absurd (grind (arith, e))
    interrupted zero fd (b ∷ bytes) e = absurd (grind (arith, e))
    interrupted (suc k) fd bytes e = omega arith

    calm : (k fd : ℕ) (bytes : Bytes) → (toy_write k fd bytes).1 ≤ k
    calm zero fd [] = omega arith
    calm zero fd (b ∷ bytes) = omega arith
    calm (suc k) fd bytes = omega arith

-- Two bytes that stand at both ends of the array.
abbrev ring : OutRing
ring = record { buf = 5 ∷ 6 ∷ 7 ∷ 8 ∷ []; head = 3; len = 2 }

ring-IsRing : IsRing 4 ring
ring-IsRing = record { sized = refl; inside = omega arith; bounded = omega arith }

ring-IsQueue_example : IsQueue 4 ring
ring-IsQueue_example = ring-IsQueue 4 ring ring-IsRing

drain_total_example : IsFlushed toy 4 7 ring 2 (drain toy 4 7 ring 2)
drain_total_example = drain_total toy 4 toy-IsKernel 7 ring 2 ring-IsRing

toy_takes : (k : ℕ) (bytes : Bytes) → 0 < length bytes → is_refusal (toy_write k 7 bytes).0 ≡ false
toy_takes zero [] h = absurd (omega arith)
toy_takes zero (b ∷ bytes) h = refl
toy_takes (suc k) bytes h = refl

drain_empties_example :
    (is_empty (drain toy 4 7 ring 0).ring ≡ true)
    × ((drain toy 4 7 ring 0).written ≡ contents 4 ring)
drain_empties_example = drain_empties toy 4 toy-IsKernel 7 ring 0 ring-IsRing toy_takes

-- A server of two slots that listens, with a broker behind it.
abbrev small : Traits
small = record default_traits {
  max_connections = 2;
  max_sessions = 2;
  max_topic_len = 8;
  max_payload_len = 8;
  max_packet_size = 64;
}

abbrev listening : StreamServer ℕ
listening = record (new_server 2 64 1) { listen_fd = some 3 }

abbrev server_env : Env (StreamServer ℕ) (Unit {0})
server_env = allow_all small (send toy 64) (close toy 64)

abbrev served : Broker (StreamServer ℕ) (Unit {0})
served = new_broker server_env listening

listening-IsSound : IsSound 64 listening
unfolding new_server
listening-IsSound =
    kept-IsSound 64 (λ fd. 0) (new_server 2 64 1) listening refl refl
      (new_server-IsSound 2 64 1 (omega arith))

served-IsSound : IsSound 64 served.tr
unfolding new_broker
served-IsSound = listening-IsSound

poll_once-IsWritten_example :
    IsWritten 64
      (broker_client server_env)
      (poll_once toy 64 (broker_client server_env) 100 served).1
poll_once-IsWritten_example =
    poll_once-IsWritten toy toy-IsKernel 64 (broker_client server_env)
      (broker_client-IsClient server_env) 100 served served-IsSound

-- A server whose only slot holds two bytes of four.
abbrev half_full : StreamServer ℕ
half_full = record listening {
  slots = record { fd = some 9; dirty = true; ring = ring } ∷ [];
  kernel = 2;
}

abbrev half_slot : Slot
half_slot = record { fd = some 9; dirty = true; ring = ring }

send_outcome_example :
    (((send toy 4 half_full 0 (1 ∷ 2 ∷ 3 ∷ [])).1 ≡ true)
      × Holds toy 4 0 9
          (contents 4 ring ++ 1 ∷ 2 ∷ 3 ∷ [])
          (send toy 4 half_full 0 (1 ∷ 2 ∷ 3 ∷ [])).0)
    ⊎ ((4 < length (contents 4 ring) + 3)
        × (rest : Bytes) × ((drain toy 4 9 ring 2).written ++ rest ≡ contents 4 ring)
        × ((((send toy 4 half_full 0 (1 ∷ 2 ∷ 3 ∷ [])).1 ≡ true)
              × Holds toy 4 0 9
                  (rest ++ 1 ∷ 2 ∷ 3 ∷ [])
                  (send toy 4 half_full 0 (1 ∷ 2 ∷ 3 ∷ [])).0)
            ⊎ (((send toy 4 half_full 0 (1 ∷ 2 ∷ 3 ∷ [])).1 ≡ false)
                × (4 < length rest + 3)
                × Holds toy 4 0 9 rest (send toy 4 half_full 0 (1 ∷ 2 ∷ 3 ∷ [])).0)))
send_outcome_example =
    send_outcome toy 4 toy-IsKernel half_full 0 9 (1 ∷ 2 ∷ 3 ∷ []) half_slot refl refl ring-IsRing

-- A pipe on the descriptors 4 and 5, with a broker behind it.
abbrev piped : Pipe ℕ
piped = (open_fds toy (some 4) (some 5) (new_pipe 64 1)).1

-- The pipe that holds 4 and 5 is opened on 5 and 6: 5 is held already, so no pair is taken.
open_fds-closes_example :
    Streams.IsSound 64 (open_fds toy (some 5) (some 6) piped).1
    × ((fd : ℕ)
        → sum_of (Streams.closes fd) (open_fds toy (some 5) (some 6) piped).1.acts
          ≡ sum_of (Streams.closes fd) piped.acts
            + one_if (is_shut (some 5) (some 6) piped (open_fds toy (some 5) (some 6) piped).0 fd))
open_fds-closes_example = open_fds-closes toy 64 (some 5) (some 6) piped (
    open_fds-IsSound toy 64 (some 4) (some 5) (new_pipe 64 1) (new_pipe-IsSound 64 1 (omega arith)))

abbrev pipe_env : Env (Pipe ℕ) (Unit {0})
pipe_env = allow_all small (Pipe.send toy 64) (Pipe.close toy 64)

abbrev piped_broker : Broker (Pipe ℕ) (Unit {0})
piped_broker = new_broker pipe_env piped

piped-IsSound : Streams.IsSound 64 piped_broker.tr
unfolding new_broker
piped-IsSound =
    open_fds-IsSound toy 64 (some 4) (some 5) (new_pipe 64 1) (new_pipe-IsSound 64 1 (omega arith))

poll_once-IsSound_example :
    Streams.IsSound 64 (Pass.poll_once toy 64 (broker_client pipe_env) 100 piped_broker).1.tr
poll_once-IsSound_example =
    poll_once-IsSound toy toy-IsKernel 64 (broker_client pipe_env) (broker_client-IsClient pipe_env)
      100 piped_broker piped-IsSound

-- A raw transport that keeps what it was sent.
abbrev keep_send : List Bytes → ℕ → Bytes → List Bytes × Bool
keep_send sent ci bytes = (sent ++ bytes ∷ [], true)

abbrev keep_close : List Bytes → ℕ → List Bytes
keep_close sent ci = sent

abbrev sealed : TlsAdapter (Unit {0}) (List Bytes)
sealed = new_adapter tt 2 8 []

null-send_example :
    passed keep_send keep_close 8
      (TlsAdapter.send null_tls_engine keep_send keep_close 8 sealed 1 (1 ∷ 2 ∷ 3 ∷ []))
    ≡ ((1 ∷ 2 ∷ 3 ∷ []) ∷ [], true)
unfolding new_adapter
null-send_example = null-send keep_send keep_close 8 sealed 1 (1 ∷ 2 ∷ 3 ∷ []) refl refl

abbrev wide_engine : Engine (Unit {0})
wide_engine = record null_tls_engine { record_overhead = some 29 }

room_for_record_example : (93 ≤ 100) × ((published (some 93) ≡ 0) ⊎ (93 ≤ 93))
unfolding cipher_capacity narrower_capacity out_buf_size
room_for_record_example =
    room_for_record wide_engine 100 (some 93) 64 93 (omega arith) (omega arith) (omega arith)
