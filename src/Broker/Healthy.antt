-- ===== src/Broker/Healthy.antt =====
-- include/minimosq/broker/broker.hpp: the bounds on the queues and on the session table, and the searches for
-- an identifier that rest on them.
pub mod Reachable
use minimosq_mqtt.Prelude.{
  ℕ, ◌^◌, ◌≤◌, ◌<◌, ◌≡◌, subst, ◌∙◌, inl, inr, false, Option, none, some, List, arith, Option-cases,
  Bytes, length, set, get_elem?, get_elem?-set_inv, length-set,
}
use minimosq_mqtt.Core.Pool.{alloc, release, at, update, first_free}
use minimosq_mqtt.Core.StaticVector.{length-push_back}
use minimosq_mqtt.Broker.Session.{Session, new_session, alloc_packet_id}
use minimosq_mqtt.Broker.Session.PacketIds.{alloc_packet_id-IsFresh}
use minimosq_mqtt.Broker.State.{
  Env, Broker, hang, session_at, put_session, modify_session, modify_conn,
}
use minimosq_mqtt.Broker.Notify.{on_event, mark_dead}
use minimosq_mqtt.Broker.Send.{transport_send}
use minimosq_mqtt.Broker.ClientId.{generate_client_id}
use minimosq_mqtt.Broker.ClientId.Fresh.{generate_client_id-IsFresh}
use minimosq_mqtt.Broker.Teardown.{release_session}
use minimosq_mqtt.Broker.Connect.{alloc_session}
use minimosq_mqtt.Broker.Links.{session-slot}
use minimosq_mqtt.Broker.Robust.{Robust}

module _ {T A : Type 0} (env : Env T A) where
  -- The queue of a session is within its capacity, and its last packet identifier has 16 bits.
  abbrev pub IsBounded : Session A → Type 0
  IsBounded s = (length s.pending ≤ env.max_pending_per_session) × (s.last_packet_id < 2 ^ 16)

  abbrev AllBounded : List (Option (Session A)) → Type 0
  AllBounded slots = (i : ℕ) (s : Session A) → get_elem? slots i ≡ some (some s) → IsBounded s

  -- No search has hung, and the bounds hold that make the next one end.
  pub record IsHealthy (b : Broker T A) : Type 0 where
    pub ended : b.hung ≡ false
    pub counter : b.auto_id_counter < 2 ^ 16
    pub table : length b.sessions.slots ≡ env.max_sessions
    pub queues : AllBounded b.sessions.slots

  set-AllBounded :
      (slots : List (Option (Session A))) (i : ℕ) (s : Session A)
      → AllBounded slots
      → IsBounded s
      → AllBounded (set slots i (some s))
  set-AllBounded slots i s h k j t e = elim (get_elem?-set_inv slots i j (some s) (some t) e) [
    | inl (same, d, room) ↦ subst IsBounded {x = s} {y = t} (grind (arith, d)) k
    | inr (other, d) ↦ h j t d
  ]

  freed-AllBounded :
      (slots : List (Option (Session A))) (i : ℕ) → AllBounded slots → AllBounded (set slots i none)
  freed-AllBounded slots i h j t e = elim (get_elem?-set_inv slots i j none (some t) e) [
    | inl (same, d, room) ↦ absurd (grind (arith, d))
    | inr (other, d) ↦ h j t d
  ]

  written-IsHealthy :
      (si : ℕ) (f : Session A → Session A) (b : Broker T A)
      → ((s : Session A) → session_at si b ≡ some s → IsBounded s → IsBounded (f s))
      → IsHealthy b
      → IsHealthy (modify_session si f b)
  unfolding modify_session put_session update
  written-IsHealthy si f b keeps h = elim (Option-cases (session_at si b)) [
    | inl e ↦ rw (e, modify_session) h
    | inr (s, e) ↦
        let slots = b.sessions.slots in
        rw (e, modify_session)
          (record {
            ended = h.ended;
            counter = h.counter;
            table = length-set slots si (some (f s)) ∙ h.table;
            queues =
                set-AllBounded slots si (f s) h.queues
                  (keeps s e (h.queues si s (session-slot si b s e)));
          })
  ]

  module _ (few : env.max_pending_per_session < 65535) (small : env.max_sessions < 65535) where
    searched :
        (si : ℕ) (s : Session A) (b : Broker T A)
        → session_at si b ≡ some s
        → alloc_packet_id s ≡ none
        → IsHealthy b
        → IsHealthy (hang b)
    searched si s b e none_left h =
        let (fits, last) = h.queues si s (session-slot si b s e) in
        let (id, found, fresh) = alloc_packet_id-IsFresh s last (omega arith) in
        absurd (grind (arith, found, none_left))

    claimed : (b : Broker T A) → IsHealthy b → IsHealthy (alloc_session env b).1
    unfolding alloc_session alloc
    claimed b h = elim (Option-cases (first_free b.sessions.slots)) [
      | inl e ↦ rw (e, alloc, alloc_session) h
      | inr (i, e) ↦
          rw (e, alloc, alloc_session)
            (record {
              ended = h.ended;
              counter = h.counter;
              table = length-set b.sessions.slots i (some (new_session env.default_ctx)) ∙ h.table;
              queues =
                  set-AllBounded b.sessions.slots i (new_session env.default_ctx) h.queues
                    (omega arith, omega arith);
            })
    ]

    freed : (si : ℕ) (b : Broker T A) → IsHealthy b → IsHealthy (release_session si b)
    unfolding release_session release
    freed si b h = elim (Option-cases (at si b.sessions)) [
      | inl e ↦ rw (e, release, release_session) h
      | inr (s, e) ↦
          rw (e, release, release_session)
            (record {
              ended = h.ended;
              counter = h.counter;
              table = length-set b.sessions.slots si none ∙ h.table;
              queues = freed-AllBounded b.sessions.slots si h.queues;
            })
    ]

    assigned :
        (b : Broker T A) (id : Bytes) (b1 : Broker T A)
        → generate_client_id b ≡ some (id, b1)
        → IsHealthy b
        → IsHealthy b1
    assigned b id b1 e h =
        let (n, found, fits, fresh, reserved) =
          generate_client_id-IsFresh b h.counter (omega (arith, h.table)) in
        subst IsHealthy {x = record b { auto_id_counter = n }} {y = b1} (grind (arith, found, e))
          (record { ended = h.ended; counter = fits; table = h.table; queues = h.queues })

    unassigned : (b : Broker T A) → generate_client_id b ≡ none → IsHealthy b → IsHealthy (hang b)
    unassigned b e h =
        let (n, found, fits, fresh, reserved) =
          generate_client_id-IsFresh b h.counter (omega (arith, h.table)) in
        absurd (grind (arith, found, e))

    pub IsHealthy-Robust : Robust env IsHealthy
    unfolding on_event transport_send mark_dead modify_conn
    IsHealthy-Robust = record {
      stable = record {
        quiet = record {
          event = λ e b h. record {
            ended = h.ended;
            counter = h.counter;
            table = h.table;
            queues = h.queues;
          };
          sent = λ ci pkt b h. record {
            ended = h.ended;
            counter = h.counter;
            table = h.table;
            queues = h.queues;
          };
          kept = λ r b h. record {
            ended = h.ended;
            counter = h.counter;
            table = h.table;
            queues = h.queues;
          };
          written = λ si f b keeps still h.
              written-IsHealthy si f b
                (λ s e k. (omega (arith, (still s).0, k.0), omega (arith, (still s).1, k.1))) h;
          identified = λ si id b fits h. written-IsHealthy si _ b (λ s e k. (k.0, fits)) h;
          queued = λ si s m ms b e room h.
              written-IsHealthy si (λ t. record t { pending = ms }) b
                (λ t d k. (
                  (length-push_back env.max_pending_per_session s.pending ms m
                      (h.queues si s (session-slot si b s e)).0 room).0,
                  k.1,
                ))
                h;
          searched = searched;
        };
        killed = λ ci b h. record {
          ended = h.ended;
          counter = h.counter;
          table = h.table;
          queues = h.queues;
        };
      };
      conn_written = λ ci f b h. record {
        ended = h.ended;
        counter = h.counter;
        table = h.table;
        queues = h.queues;
      };
      session_written = λ si f b still h.
          written-IsHealthy si f b
            (λ s e k. (omega (arith, (still s).0, k.0), omega (arith, (still s).1, k.1))) h;
      freed = freed;
      claimed = claimed;
      timed = λ now b h. record {
        ended = h.ended;
        counter = h.counter;
        table = h.table;
        queues = h.queues;
      };
      ordered = λ k b h. record {
        ended = h.ended;
        counter = h.counter;
        table = h.table;
        queues = h.queues;
      };
      assigned = assigned;
      unassigned = unassigned;
      closed = λ ci b h. record {
        ended = h.ended;
        counter = h.counter;
        table = h.table;
        queues = h.queues;
      };
    }
