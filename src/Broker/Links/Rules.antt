-- ===== src/Broker/Links/Rules.antt =====
-- The rules for references between connections and sessions, on the links of a broker alone.
use minimosq_mqtt.Prelude.{
  ℕ, zero, suc, ◌≤◌, ◌<◌, ◌≡◌, ap, ◌∙◌, ◌≢◌, ◌⊎◌, inl, inr, Bool, true, false, Option, none, some,
  List, [], ◌∷◌, arith, if◌then◌else◌, Option-cases, Bytes, length, set, get_elem?, length-set,
  get_elem?-set_inv, get_elem?-set_self, get_elem?-lt, get_elem?-set_ne,
}
use minimosq_mqtt.Broker.Session.{no_conn}
use minimosq_mqtt.Broker.State.{no_session}
use minimosq_mqtt.Broker.Links.{Links, sym}

-- The connection that a slot refers to.
abbrev pub slot_owner : Option (Option (Bytes × ℕ)) → Option ℕ
slot_owner (some (some k)) = some k.1
slot_owner _ = none

unfoldable pub owner : List (Option (Bytes × ℕ)) → ℕ → Option ℕ
owner ss si = slot_owner (get_elem? ss si)

-- No two sessions have one client id.
abbrev pub IdsDiffer : List (Option (Bytes × ℕ)) → Type 0
IdsDiffer ss =
    (i j : ℕ) (id : Bytes) (x y : ℕ)
    → get_elem? ss i ≡ some (some (id, x))
    → get_elem? ss j ≡ some (some (id, y))
    → i ≡ j

-- The client id of a value for a slot is in no other slot.
abbrev pub IsFresh : List (Option (Bytes × ℕ)) → ℕ → Option (Bytes × ℕ) → Type 0
IsFresh ss i v =
    (id : Bytes) (x : ℕ)
    → v ≡ some (id, x)
    → (j y : ℕ) → get_elem? ss j ≡ some (some (id, y))
    → j ≡ i

-- A connection with a session is active and is the one its session refers to; a session with a connection
-- is the one that connection refers to.
pub record IsPaired (l : Links) : Type 0 where
  pub conn_side :
      (ci : ℕ) (a : Bool) (si : ℕ)
      → get_elem? l.0 ci ≡ some (a, si)
      → si ≢ no_session
      → (a ≡ true) × (owner l.1 si ≡ some ci)
  pub session_side :
      (si ci : ℕ) → owner l.1 si ≡ some ci → ci ≢ no_conn → get_elem? l.0 ci ≡ some (true, si)
  pub ids_differ : IdsDiffer l.1
  pub few_conns : length l.0 ≤ no_conn
  pub few_sessions : length l.1 ≤ no_session

pub ℕ-cases : (i j : ℕ) → (i ≡ j) ⊎ (i ≢ j)
ℕ-cases i j = ground arith

pub owner_slot :
    (ss : List (Option (Bytes × ℕ))) (si : ℕ) (o : Option (Bytes × ℕ))
    → get_elem? ss si ≡ some o
    → owner ss si ≡ slot_owner (some o)
unfolding owner
owner_slot ss si o e = ap slot_owner e

-- The value is none, or has the client id that the slot has.
pub none-IsFresh : (ss : List (Option (Bytes × ℕ))) (i : ℕ) → IsFresh ss i none
none-IsFresh ss i id x e j y d = absurd (grind (arith, e))

pub same-IsFresh :
    (ss : List (Option (Bytes × ℕ))) (i : ℕ) (id : Bytes) (x y : ℕ)
    → IdsDiffer ss
    → get_elem? ss i ≡ some (some (id, x))
    → IsFresh ss i (some (id, y))
same-IsFresh ss i id x y differ here id' x' e j y' d = differ j i id y' x (grind (arith, e, d)) here

set-IdsDiffer :
    (ss : List (Option (Bytes × ℕ))) (i : ℕ) (v : Option (Bytes × ℕ))
    → IdsDiffer ss
    → IsFresh ss i v
    → IdsDiffer (set ss i v)
set-IdsDiffer ss i v differ fresh j k id x y at_j at_k =
    elim (get_elem?-set_inv ss i j v (some (id, x)) at_j) [
      | inl (q, e, l) ↦ elim (get_elem?-set_inv ss i k v (some (id, y)) at_k) [
        | inl (r, f, m) ↦ q ∙ sym r
        | inr (n, f) ↦ q ∙ sym (fresh id x (sym e) k y f)
      ]
      | inr (n, e) ↦ elim (get_elem?-set_inv ss i k v (some (id, y)) at_k) [
        | inl (r, f, m) ↦ fresh id y (sym f) j x e ∙ sym r
        | inr (n', f) ↦ differ j k id x y e f
      ]
    ]

owner-set :
    (ss : List (Option (Bytes × ℕ))) (i j : ℕ) (o v : Option (Bytes × ℕ))
    → get_elem? ss i ≡ some o
    → ((j ≡ i) × (owner (set ss i v) j ≡ slot_owner (some v)))
      ⊎ ((j ≢ i) × (owner (set ss i v) j ≡ owner ss j))
unfolding owner
owner-set ss i j o v e = elim (ℕ-cases j i) [
  | inl d ↦ inl (d, rw d (ap slot_owner (get_elem?-set_self ss i v (get_elem?-lt ss i o e))))
  | inr d ↦ inr (d, ap slot_owner (get_elem?-set_ne ss i j v d))
]

pub owner_inv :
    (ss : List (Option (Bytes × ℕ))) (si ci : ℕ)
    → owner ss si ≡ some ci
    → (id : Bytes) × (get_elem? ss si ≡ some (some (id, ci)))
unfolding owner
owner_inv ss si ci e = elim (Option-cases (get_elem? ss si)) [
  | inl d ↦ absurd (grind (arith, ap slot_owner d))
  | inr (none, d) ↦ absurd (grind (arith, ap slot_owner d))
  | inr (some (id, x), d) ↦ (id, grind (arith, ap slot_owner d, d))
]

pub owner-lt : (ss : List (Option (Bytes × ℕ))) (si ci : ℕ) → owner ss si ≡ some ci → si < length ss
unfolding owner
owner-lt ss si ci e = elim (Option-cases (get_elem? ss si)) [
  | inl d ↦ grind (arith, ap slot_owner d)
  | inr (v, d) ↦ get_elem?-lt ss si v d
]

-- A connection opens, where there was none.
pub open-IsPaired :
    (cs : List (Bool × ℕ)) (ss : List (Option (Bytes × ℕ))) (ci si : ℕ)
    → IsPaired (cs, ss)
    → get_elem? cs ci ≡ some (false, si)
    → IsPaired (set cs ci (true, no_session), ss)
open-IsPaired cs ss ci si p e = record {
  conn_side = λ cj a sj h n. elim (get_elem?-set_inv cs ci cj (true, no_session) (a, sj) h) [
    | inl (d, w, l) ↦ (grind (arith, w), absurd (n (grind (arith, w))))
    | inr (d, w) ↦ p.conn_side cj a sj w n
  ];
  session_side = λ sj cj h n. elim (ℕ-cases cj ci) [
    | inl d ↦ grind (arith, p.session_side sj cj h n, e)
    | inr d ↦ get_elem?-set_ne cs ci cj (true, no_session) d ∙ p.session_side sj cj h n
  ];
  ids_differ = p.ids_differ;
  few_conns = rw (length-set cs ci (true, no_session)) p.few_conns;
  few_sessions = p.few_sessions;
}

-- A slot whose session has no connection gets a value without one.
pub slot-IsPaired :
    (cs : List (Bool × ℕ)) (ss : List (Option (Bytes × ℕ))) (i : ℕ) (o v : Option (Bytes × ℕ))
    → IsPaired (cs, ss)
    → get_elem? ss i ≡ some o
    → (slot_owner (some o) ≡ none) ⊎ (slot_owner (some o) ≡ some no_conn)
    → (slot_owner (some v) ≡ none) ⊎ (slot_owner (some v) ≡ some no_conn)
    → IsFresh ss i v
    → IsPaired (cs, set ss i v)
slot-IsPaired cs ss i o v p e free free' fresh = record {
  conn_side = λ cj a sj h n. grind (
    arith,
    p.conn_side cj a sj h n,
    owner-set ss i sj o v e,
    owner_slot ss i o e,
    get_elem?-lt cs cj (a, sj) h,
  );
  session_side = λ sj cj h n. grind (arith, p.session_side sj cj, owner-set ss i sj o v e);
  ids_differ = set-IdsDiffer ss i v p.ids_differ fresh;
  few_conns = p.few_conns;
  few_sessions = rw (length-set ss i v) p.few_sessions;
}

-- A connection closes and leaves its session, if it had one.
pub close-IsPaired :
    (cs : List (Bool × ℕ)) (ss : List (Option (Bytes × ℕ))) (ci : ℕ) (a : Bool) (i : ℕ)
    (o v : Option (Bytes × ℕ))
    → IsPaired (cs, ss)
    → get_elem? cs ci ≡ some (a, i)
    → get_elem? ss i ≡ some o
    → (slot_owner (some v) ≡ none) ⊎ (slot_owner (some v) ≡ some no_conn)
    → i ≢ no_session
    → IsFresh ss i v
    → IsPaired (set cs ci (false, no_session), set ss i v)
close-IsPaired cs ss ci a i o v p e d free n fresh = record {
  conn_side = λ cj b sj h m. grind (
    arith,
    get_elem?-set_inv cs ci cj (false, no_session) (b, sj) h,
    p.conn_side cj b sj,
    p.conn_side ci a i e n,
    owner-set ss i sj o v d,
  );
  session_side = λ sj cj h m. grind (
    arith,
    p.session_side sj cj,
    owner-set ss i sj o v d,
    ℕ-cases cj ci,
    get_elem?-set_ne cs ci cj (false, no_session),
    e,
  );
  ids_differ = set-IdsDiffer ss i v p.ids_differ fresh;
  few_conns = rw (length-set cs ci (false, no_session)) p.few_conns;
  few_sessions = rw (length-set ss i v) p.few_sessions;
}

-- A connection without a session closes.
pub close-IsPaired_alone :
    (cs : List (Bool × ℕ)) (ss : List (Option (Bytes × ℕ))) (ci : ℕ) (a : Bool)
    → IsPaired (cs, ss)
    → get_elem? cs ci ≡ some (a, no_session)
    → IsPaired (set cs ci (false, no_session), ss)
close-IsPaired_alone cs ss ci a p e = record {
  conn_side = λ cj b sj h m.
      grind (arith, get_elem?-set_inv cs ci cj (false, no_session) (b, sj) h, p.conn_side cj b sj);
  session_side = λ sj cj h m. grind (
    arith,
    p.session_side sj cj h m,
    ℕ-cases cj ci,
    get_elem?-set_ne cs ci cj (false, no_session),
    e,
    owner-lt ss sj cj h,
    p.few_sessions,
  );
  ids_differ = p.ids_differ;
  few_conns = rw (length-set cs ci (false, no_session)) p.few_conns;
  few_sessions = p.few_sessions;
}

-- The connections that are open.
unfoldable pub active_count : List (Bool × ℕ) → ℕ
active_count [] = 0
active_count (c ∷ cs) = let n = active_count cs in if c.0 then suc n else n

pub active_count-length : (cs : List (Bool × ℕ)) → active_count cs ≤ length cs
unfolding active_count
active_count-length [] = omega arith
active_count-length (c ∷ cs) = ground (arith, active_count-length cs)

pub active_count-close :
    (cs : List (Bool × ℕ)) (ci si sj : ℕ)
    → get_elem? cs ci ≡ some (true, si)
    → suc (active_count (set cs ci (false, sj))) ≡ active_count cs
unfolding active_count
active_count-close [] ci si sj e = cc
active_count-close (c ∷ cs) zero si sj e = grind (arith, e)
active_count-close (c ∷ cs) (suc ci) si sj e = grind (arith, active_count-close cs ci si sj e)

-- A connection without a session and a session without a connection come together.
pub attach-IsPaired :
    (cs : List (Bool × ℕ)) (ss : List (Option (Bytes × ℕ))) (ci si : ℕ) (id : Bytes)
    → IsPaired (cs, ss)
    → get_elem? cs ci ≡ some (true, no_session)
    → get_elem? ss si ≡ some (some (id, no_conn))
    → IsPaired (set cs ci (true, si), set ss si (some (id, ci)))
attach-IsPaired cs ss ci si id p e d = record {
  conn_side = λ cj a sj h n. grind (
    arith,
    get_elem?-set_inv cs ci cj (true, si) (a, sj) h,
    p.conn_side cj a sj,
    owner-set ss si sj (some (id, no_conn)) (some (id, ci)) d,
    owner_slot ss si (some (id, no_conn)) d,
    get_elem?-lt cs cj (a, sj),
    p.few_conns,
  );
  session_side = λ sj cj h n. grind (
    arith,
    ℕ-cases cj ci,
    get_elem?-set_self cs ci (true, si),
    get_elem?-lt cs ci (true, no_session) e,
    get_elem?-set_ne cs ci cj (true, si),
    p.session_side sj cj,
    owner-set ss si sj (some (id, no_conn)) (some (id, ci)) d,
    owner-lt ss sj cj,
    p.few_sessions,
    e,
  );
  ids_differ =
      set-IdsDiffer ss si (some (id, ci)) p.ids_differ
        (same-IsFresh ss si id no_conn ci p.ids_differ d);
  few_conns = rw (length-set cs ci (true, si)) p.few_conns;
  few_sessions = rw (length-set ss si (some (id, ci))) p.few_sessions;
}
