-- ===== src/Broker/TableAcl/Tables.antt =====
-- What the tables of the policy admit.
use minimosq_mqtt.Prelude.{
  ℕ, ◌<◌, bit_or, bit_xor, ◌≡◌, refl, ◌∙◌, inl, inr, true, false, ◌&&◌, Option, none, some, List,
  [], ◌∷◌, arith, ◌==◌, if◌then◌else◌, Bool-cases, Option-cases, Bytes, IsByte, All, length,
}
use minimosq_mqtt.Protocol.Constants.{accepted, bad_credentials}
use minimosq_mqtt.Topic.{topic_matches}
use minimosq_mqtt.Prelude.{or_byte, xor_byte, and_unsigned, and_zero, or_zero, zero_or}
use minimosq_mqtt.Core.Span.{same_bytes, view_eq}
use minimosq_mqtt.Topic.Covering.{topic_filter_covers-matches}
use minimosq_mqtt.Broker.TableAcl.{
  TableAcl, User, Rule, read, constant_time_eq, differences, scan_user, scan_users, authenticate,
  allowed, authorize_receive, authorize_subscribe,
}

allowed_covers :
    (rs : List Rule) (role need : ℕ) (filter name : Bytes)
    → allowed rs role need filter true ≡ true
    → topic_matches filter name ≡ true
    → allowed rs role need name false ≡ true
unfolding allowed
allowed_covers [] role need filter name e m = cc
allowed_covers (r ∷ rs) role need filter name e m = ground (
  arith,
  allowed_covers rs role need filter name,
  topic_filter_covers-matches r.pattern filter name,
)

-- A role that may subscribe to a filter may receive every topic that the filter matches.
pub authorize_subscribe-receive :
    (t : TableAcl) (role : ℕ) (filter name : Bytes)
    → authorize_subscribe t role filter ≡ true
    → topic_matches filter name ≡ true
    → authorize_receive t role name ≡ true
unfolding authorize_subscribe authorize_receive
authorize_subscribe-receive t role filter name = allowed_covers t.rules role read filter name

-- What the startup code fills the table with: bytes, and roles that are a `uint8_t`.
abbrev pub ByteUser : User → Type 0
ByteUser u = All IsByte u.name × All IsByte u.password × (u.role < 256)

differences-same_bytes :
    (diff : ℕ) (a b : Bytes)
    → diff < 256
    → All IsByte a
    → All IsByte b
    → length a ≡ length b
    → (differences diff a b == 0) ≡ (if diff == 0 then same_bytes a b else false)
unfolding differences same_bytes
differences-same_bytes diff [] [] hd ha hb e = ground arith
differences-same_bytes diff [] (y ∷ b) hd ha hb e = absurd (omega arith)
differences-same_bytes diff (x ∷ a) [] hd ha hb e = absurd (omega arith)
differences-same_bytes diff (x ∷ a) (y ∷ b) hd ha hb e =
    let (small, clear, differ) = xor_byte x y ha.0 hb.0 in
    let (kept, zeros) = or_byte diff (bit_xor x y) hd small in
    let both : diff ≡ 0 → bit_xor x y ≡ 0 → bit_or diff (bit_xor x y) ≡ 0 = λ p q. rw (p, q) refl in
    differences-same_bytes (bit_or diff (bit_xor x y)) a b kept ha.1 hb.1 (omega (arith, e))
    ∙ ground (arith, clear, differ, zeros, both)

differences-keeps :
    (diff : ℕ) (a b : Bytes)
    → 0 < diff
    → diff < 256
    → All IsByte a
    → All IsByte b
    → 0 < differences diff a b
unfolding differences
differences-keeps diff [] b h hd ha hb = h
differences-keeps diff (x ∷ a) [] h hd ha hb = h
differences-keeps diff (x ∷ a) (y ∷ b) h hd ha hb = ground (
  arith,
  differences-keeps (bit_or diff (bit_xor x y)) a b,
  or_byte diff (bit_xor x y),
  xor_byte x y,
)

constant_time_eq-view_eq :
    (a b : Bytes) → All IsByte a → All IsByte b → constant_time_eq a b ≡ view_eq a b
unfolding constant_time_eq view_eq
constant_time_eq-view_eq a b ha hb =
    ground (arith, differences-same_bytes 0 a b, differences-keeps 1 a b)

-- The user whose role the scan keeps.
unfoldable pub first_match : Bytes → Bytes → List User → Option User
first_match username supplied [] = none
first_match username supplied (u ∷ us) =
    let rest = first_match username supplied us in
    if view_eq u.name username && view_eq u.password supplied then some u else rest

scan_user_found :
    (username supplied : Bytes) (u : User) (role : ℕ)
    → u.role < 256
    → role < 256
    → scan_user username supplied u (1, role) ≡ (1, role)
unfolding scan_user
scan_user_found username supplied u role hu hr =
    ground (arith, and_unsigned role, and_zero u.role, or_zero role)

scan_user_open :
    (username supplied : Bytes) (u : User)
    → u.role < 256
    → scan_user username supplied u (0, 0) ≡ (
        if constant_time_eq u.name username && constant_time_eq u.password supplied
        then (1, u.role)
        else (0, 0))
unfolding scan_user
scan_user_open username supplied u hu =
    ground (arith, and_unsigned u.role, and_zero u.role, zero_or u.role)

scan_users_found :
    (username supplied : Bytes) (us : List User) (role : ℕ)
    → All ByteUser us
    → role < 256
    → scan_users username supplied us (1, role) ≡ (1, role)
unfolding scan_users
scan_users_found username supplied [] role hu hr = refl
scan_users_found username supplied (u ∷ us) role hu hr =
    rw (scan_user_found username supplied u role hu.0.2 hr)
      (scan_users_found username supplied us role hu.1 hr)

scan_users-first_match :
    (username supplied : Bytes) (us : List User)
    → All IsByte username
    → All IsByte supplied
    → All ByteUser us
    → scan_users username supplied us (0, 0)
      ≡ elim (first_match username supplied us) [ none ↦ (0, 0) | some u ↦ (1, u.role) ]
unfolding scan_users first_match
scan_users-first_match username supplied [] hn hs hu = refl
scan_users-first_match username supplied (u ∷ us) hn hs hu =
    rw
      (
        scan_user_open username supplied u hu.0.2,
        constant_time_eq-view_eq u.name username hu.0.0 hn,
        constant_time_eq-view_eq u.password supplied hu.0.1 hs,
      )
      (elim (Bool-cases (view_eq u.name username && view_eq u.password supplied)) [
        | inl e ↦ rw (e, first_match) (scan_users_found username supplied us u.role hu.1 hu.0.2)
        | inr e ↦ rw (e, first_match) (scan_users-first_match username supplied us hn hs hu.1)
      ])

abbrev pub supplied_password : Option Bytes → Bytes
supplied_password none = []
supplied_password (some b) = b

-- With a name, the branch-free scan of the whole table answers as the ordinary lookup of the
-- first user with the supplied name and password, whose role it gives; names and passwords are
-- bytes and roles below 256.
pub authenticate-first_match :
    (t : TableAcl) (client_id username : Bytes) (password : Option Bytes)
    → All ByteUser t.users
    → All IsByte username
    → All IsByte (supplied_password password)
    → authenticate t client_id (some username) password
      ≡ elim (first_match username (supplied_password password) t.users) [
        | none ↦ (bad_credentials, none)
        | some u ↦ (accepted, some u.role)
      ]
unfolding authenticate
authenticate-first_match t client_id username none hu hn hs =
    rw (scan_users-first_match username [] t.users hn hs hu)
      (elim (Option-cases (first_match username [] t.users)) [
        | inl e ↦ rw e refl
        | inr (u, e) ↦ rw e refl
      ])
authenticate-first_match t client_id username (some b) hu hn hs =
    rw (scan_users-first_match username b t.users hn hs hu)
      (elim (Option-cases (first_match username b t.users)) [
        | inl e ↦ rw e refl
        | inr (u, e) ↦ rw e refl
      ])
