-- ===== src/Broker/Links/Calls.antt =====
-- How the operations that open, close and expire change the links.
use minimosq_mqtt.Prelude.{
  ℕ, ◌≡◌, refl, ap, ◌∙◌, inl, inr, Bool, true, false, Option, none, some, arith, if◌then◌else◌,
  Bool-cases, Bytes, set, get_elem?-lt, get_elem?-set_self, set-set,
}
use minimosq_mqtt.Broker.Session.{Session, no_conn}
use minimosq_mqtt.Broker.State.{
  Env, Broker, connection_closed, modify_conn, conn_at, session_at, no_session, session_of,
}
use minimosq_mqtt.Broker.Notify.{on_event, notify_conn}
use minimosq_mqtt.Broker.Teardown.{
  release_session, detach, stamp, publish_will, leave_session, teardown, close_transport,
  leave_owner,
}
use minimosq_mqtt.Broker.Stable.Route.{apply_retain-Quiet, route_publish-Stable}
use minimosq_mqtt.Broker.Stable.{Stable, session_link}
use minimosq_mqtt.Broker.Links.{
  Links, links, links-Stable, session-link, links-modify_conn, links-modify_session,
  links-release_link,
}

module _ {T A : Type 0} (env : Env T A) where
  -- A slot after its session has lost the connection.
  abbrev pub left_slot : Session A → Option (Bytes × ℕ)
  left_slot s = if s.clean_session then none else some (s.client_id, no_conn)

  pub links-stamp :
      (si : ℕ) (b : Broker T A) (s : Session A)
      → session_at si b ≡ some s
      → links (stamp env si b) ≡ ((links b).0, set (links b).1 si (some (s.client_id, no_conn)))
  unfolding stamp links
  links-stamp si b s e = links-modify_session si _ _ s e

  pub publish_will-Stable :
      (P : Broker T A → Type 0) (v : Stable env P) (si : ℕ) (s : Session A) (b : Broker T A)
      → P b
      → P (publish_will env si s b)
  unfolding publish_will
  publish_will-Stable P v si s b h =
      let disarmed =
        v.written si (λ t. record t { has_will = false }) b (λ t. refl) (λ t. (omega arith, refl))
          h in
      grind (arith, apply_retain-Quiet env P v.quiet, route_publish-Stable env P v)

  -- The session after the note of its disconnection and the will.
  links-will :
      (si : ℕ) (b : Broker T A) (s : Session A)
      → session_at si b ≡ some s
      → links (if s.has_will then publish_will env si s (stamp env si b) else stamp env si b)
        ≡ ((links b).0, set (links b).1 si (some (s.client_id, no_conn)))
  links-will si b s e =
      let l : Links = ((links b).0, set (links b).1 si (some (s.client_id, no_conn))) in
      elim (Bool-cases s.has_will) [
        | inl w ↦ simp w (
            publish_will-Stable (λ x. links x ≡ l) (links-Stable env l) si s _
              (links-stamp si b s e))
        | inr w ↦ simp w (links-stamp si b s e)
      ]

  links-release_left :
      (si : ℕ) (b : Broker T A) (s : Session A)
      → session_at si b ≡ some s
      → (b' : Broker T A)
      → links b' ≡ ((links b).0, set (links b).1 si (some (s.client_id, no_conn)))
      → links (release_session si b') ≡ ((links b).0, set (links b).1 si none)
  links-release_left si b s e b' left =
      let k : Bytes × ℕ = (s.client_id, no_conn) in
      let here = get_elem?-lt (links b).1 si (some (session_link s)) (session-link si b s e) in
      links-release_link si b' k _ left (get_elem?-set_self (links b).1 si (some k) here)
      ∙ ap (λ ss. ((links b).0, ss)) (set-set (links b).1 si (some k) none)

  links-leave_session :
      (si : ℕ) (b : Broker T A) (s : Session A)
      → session_at si b ≡ some s
      → links (leave_session env si s b) ≡ ((links b).0, set (links b).1 si (left_slot s))
  unfolding leave_session
  links-leave_session si b s e =
      let left = links-will si b s e in
      elim (Bool-cases s.clean_session) [
        | inl w ↦ simp w (links-release_left si b s e _ left)
        | inr w ↦ simp w left
      ]

  links-close_transport :
      (n : Bool) (ci : ℕ) (b : Broker T A) → links (close_transport env n ci b) ≡ links b
  unfolding close_transport links
  links-close_transport true ci b = refl
  links-close_transport false ci b = refl

  pub links-detach :
      (ci : ℕ) (b : Broker T A)
      → links (detach env ci (notify_conn env connection_closed ci b))
        ≡ (set (links b).0 ci (false, no_session), (links b).1)
  unfolding detach notify_conn on_event links conn_at
  links-detach ci b =
      links-modify_conn ci (λ c. record c { active = false; dead = false; session = no_session }) _

  -- Without a session only the connection changes.
  pub links-teardown_alone :
      (ci : ℕ) (b : Broker T A)
      → session_of (conn_at ci b) b ≡ none
      → links (teardown env ci b) ≡ (set (links b).0 ci (false, no_session), (links b).1)
  unfolding teardown leave_owner
  links-teardown_alone ci b h = links-close_transport _ ci _ ∙ rw h (links-detach ci b)

  pub links-teardown :
      (ci : ℕ) (b : Broker T A) (s : Session A)
      → session_of (conn_at ci b) b ≡ some s
      → session_at (conn_at ci b).session b ≡ some s
      → links (teardown env ci b) ≡ (
        set (links b).0 ci (false, no_session),
        set (links b).1 (conn_at ci b).session (left_slot s),
      )
  unfolding teardown leave_owner detach notify_conn on_event modify_conn
  links-teardown ci b s h e =
      let b1 = detach env ci (notify_conn env connection_closed ci b) in
      links-close_transport _ ci _
      ∙ rw h (
          links-leave_session (conn_at ci b).session b1 s e
          ∙ ap (λ l. (l.0, set l.1 (conn_at ci b).session (left_slot s))) (links-detach ci b))
