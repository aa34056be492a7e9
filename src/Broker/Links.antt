-- ===== src/Broker/Links.antt =====
-- How connections and sessions refer to each other. The links of a broker are its connections' `active` and
-- `session` and its sessions' `client_id` and `conn`, with everything else forgotten.
pub mod Rules
pub mod Calls
pub mod Flush
pub mod Entry
pub mod Spared
pub mod Bystander
pub mod Going
pub mod TakeOver
pub mod Attach
pub mod Claim
pub mod Open
pub mod Connect
pub mod Packet
pub mod Size
pub mod Data
use minimosq_mqtt.Prelude.{
  ℕ, zero, suc, ◌-◌, ◌≡◌, refl, sym, ap, ◌∙◌, inl, inr, Bool, true, Option, none, some, List, [],
  ◌∷◌, arith, Option-cases, Bytes, set, get_elem?, get_elem?-map_inv, map-set, get_elem?-map,
}
use mathlib.Core.List.{map}
use minimosq_mqtt.Core.Pool.{at, update, release}
use minimosq_mqtt.Core.Pool.Invariant.{at-some}
use minimosq_mqtt.Broker.Session.{Session}
use minimosq_mqtt.Broker.State.{
  Conn, Broker, modify_conn, modify_session, put_session, conn_at, session_at, Env,
}
use minimosq_mqtt.Broker.Send.{transport_send}
use minimosq_mqtt.Broker.Notify.{mark_dead, on_event}
use minimosq_mqtt.Broker.Teardown.{release_session}
use minimosq_mqtt.Broker.Stable.{KeepsLink, Stable, session_link}

abbrev pub conn_link : Conn → Bool × ℕ
conn_link c = (c.active, c.session)

abbrev pub slot_link {ℓ} : {A : Type ℓ} → Option (Session A) → Option (Bytes × ℕ)
slot_link none = none
slot_link (some s) = some (session_link s)

abbrev pub Links : Type 0
Links = List (Bool × ℕ) × List (Option (Bytes × ℕ))

unfoldable pub links : {T A : Type 0} → Broker T A → Links
links b = (map conn_link b.conns, map slot_link b.sessions.slots)

-- A write of what is there already.
set_same {ℓ} :
    {A : Type ℓ} (xs : List A) (i : ℕ) (v : A)
    → ((x : A) → get_elem? xs i ≡ some x → v ≡ x)
    → set xs i v ≡ xs
set_same [] i v same = refl
set_same (x ∷ xs) zero v same = ap (λ y. y ∷ xs) (same x refl)
set_same (x ∷ xs) (suc i) v same = ap (◌∷◌ x) (set_same xs i v same)

module _ {T A : Type 0} where
  pub session-slot :
      (si : ℕ) (b : Broker T A) (s : Session A)
      → session_at si b ≡ some s
      → get_elem? b.sessions.slots si ≡ some (some s)
  session-slot si b s e = at-some si b.sessions s e

  pub session-link :
      (si : ℕ) (b : Broker T A) (s : Session A)
      → session_at si b ≡ some s
      → get_elem? (links b).1 si ≡ some (some (session_link s))
  unfolding links
  session-link si b s e =
      get_elem?-map slot_link b.sessions.slots si (some s) (session-slot si b s e)

  -- The other way round.
  pub link-session :
      (si : ℕ) (b : Broker T A) (k : Bytes × ℕ)
      → get_elem? (links b).1 si ≡ some (some k)
      → (s : Session A) × (session_at si b ≡ some s) × (session_link s ≡ k)
  unfolding links at
  link-session si b k e =
      let (o, here, same) = get_elem?-map_inv slot_link b.sessions.slots si (some k) e in
      elim (Option-cases o) [
        | inl d ↦ grind (arith, ap slot_link (sym d) ∙ same)
        | inr (s, d) ↦ (s, rw (here, at) d, grind (arith, ap slot_link (sym d) ∙ same))
      ]

  pub links-modify_conn :
      (ci : ℕ) (f : Conn → Conn) (b : Broker T A)
      → links (modify_conn ci f b)
        ≡ (set (links b).0 ci (conn_link (f (conn_at ci b))), (links b).1)
  unfolding links modify_conn
  links-modify_conn ci f b =
      ap (λ cs. (cs, map slot_link b.sessions.slots))
        (map-set conn_link b.conns ci (f (conn_at ci b)))

  pub links-modify_session :
      (si : ℕ) (f : Session A → Session A) (b : Broker T A) (s : Session A)
      → session_at si b ≡ some s
      → links (modify_session si f b)
        ≡ ((links b).0, set (links b).1 si (some (session_link (f s))))
  unfolding links modify_session put_session update
  links-modify_session si f b s e =
      rw (e, modify_session)
        (ap (λ ss. (map conn_link b.conns, ss))
          (map-set slot_link b.sessions.slots si (some (f s))))

  pub links-release_session :
      (si : ℕ) (b : Broker T A) (s : Session A)
      → session_at si b ≡ some s
      → links (release_session si b) ≡ ((links b).0, set (links b).1 si none)
  unfolding links release_session release
  links-release_session si b s e =
      rw (e, release)
        (ap (λ ss. (map conn_link b.conns, ss)) (map-set slot_link b.sessions.slots si none))

  -- The same, told by the links alone.
  pub links-release_link :
      (si : ℕ) (b : Broker T A) (k : Bytes × ℕ) (l : Links)
      → links b ≡ l
      → get_elem? l.1 si ≡ some (some k)
      → links (release_session si b) ≡ (l.0, set l.1 si none)
  links-release_link si b k l e here =
      let (s, at_si, same) = link-session si b k (rw e here) in
      links-release_session si b s at_si ∙ ap (λ x. (x.0, set x.1 si none)) e

  pub conn-link_set :
      (ci : ℕ) (f : Conn → Conn) (b : Broker T A)
      → ((c : Conn) → conn_link (f c) ≡ conn_link c)
      → links (modify_conn ci f b) ≡ links b
  unfolding links conn_at
  conn-link_set ci f b keeps =
      links-modify_conn ci f b
      ∙ ap (λ cs. (cs, (links b).1))
          (set_same (links b).0 ci (conn_link (f (conn_at ci b))) (λ x e.
            let (c, here, same) = get_elem?-map_inv conn_link b.conns ci x e in
            rw (here, conn_at) (keeps c ∙ same)))

  pub link-session_set :
      (si : ℕ) (f : Session A → Session A) (b : Broker T A)
      → KeepsLink f
      → links (modify_session si f b) ≡ links b
  unfolding modify_session links
  link-session_set si f b keeps = elim (Option-cases (session_at si b)) [
    | inl e ↦ rw (e, modify_session) refl
    | inr (s, e) ↦
        links-modify_session si f b s e
        ∙ ap (λ ss. ((links b).0, ss))
            (set_same (links b).1 si (some (session_link (f s)))
              (λ x d. grind (arith, session-link si b s e, ap some (keeps s), d)))
  ]

  pub links-Stable : (env : Env T A) (l : Links) → Stable env (λ b. links b ≡ l)
  unfolding transport_send links on_event mark_dead modify_session
  links-Stable env l = record {
    quiet = record {
      event = λ e b h. h;
      sent = λ ci pkt b h. h;
      kept = λ r b h. h;
      written = λ si f b keeps still h. link-session_set si f b keeps ∙ h;
      identified = λ si id b small h.
          link-session_set si (λ t. record t { last_packet_id = id }) b (λ t. refl) ∙ h;
      queued = λ si s m ms b e room h.
          link-session_set si (λ t. record t { pending = ms }) b (λ t. refl) ∙ h;
      searched = λ si s b e none_left h. h;
    };
    killed = λ ci b h. conn-link_set ci (λ c. record c { dead = true }) b (λ c. refl) ∙ h;
  }
