-- ===== src/Broker/TableAcl.antt =====
-- include/minimosq/broker/table_acl.hpp: the security policy kept in two tables. A `uint8_t` is a
-- number below 256; a vector that is full refuses the entry.
pub mod Tables
use minimosq_mqtt.Prelude.{
  ℕ, ◌+◌, ◌-◌, ◌%◌, ◌^◌, bit_and, bit_or, bit_xor, Bool, true, false, not, ◌||◌, Option, none, some,
  List, [], ◌∷◌, ltb, ◌==◌, if◌then◌else◌, Bytes, length, take,
}
use minimosq_mqtt.Protocol.Constants.{ConnackCode, accepted, bad_credentials, not_authorized}
use minimosq_mqtt.Topic.{topic_matches, topic_filter_covers, topic_filter_valid}
use minimosq_mqtt.Core.Span.{view_eq}
use minimosq_mqtt.Core.StaticVector.{push_back}

-- The template's parameters.
pub record Limits : Type 0 where
  pub max_users : ℕ
  pub max_rules : ℕ
  pub max_name_len : ℕ
  pub max_secret_len : ℕ
  pub max_pattern_len : ℕ

pub record User : Type 0 where
  pub name : Bytes
  pub password : Bytes
  pub role : ℕ

pub record Rule : Type 0 where
  pub pattern : Bytes
  pub role : ℕ
  pub access : ℕ

pub record TableAcl : Type 0 where
  pub users : List User
  pub rules : List Rule
  pub anon_role : ℕ
  pub anon_allowed : Bool

abbrev pub new_acl : TableAcl
new_acl = record { users = []; rules = []; anon_role = 0; anon_allowed = false }

abbrev pub read : ℕ
read = 1

abbrev pub write : ℕ
write = 2

-- The loop of `add_user` that looks for the name.
unfoldable pub is_registered : Bytes → List User → Bool
is_registered username [] = false
is_registered username (u ∷ us) =
    let rest = is_registered username us in if view_eq u.name username then true else rest

unfoldable pub add_user : Limits → Bytes → Bytes → ℕ → TableAcl → Option TableAcl
unfolding is_registered push_back
add_user l username password role t =
    if (length username == 0)
      || ltb l.max_name_len (length username)
      || ltb l.max_secret_len (length password)
    then none
    else if is_registered username t.users
    then none
    else elim (push_back l.max_users t.users
        (record { name = username; password = password; role = role })) [
          | none ↦ none
          | some us ↦ some (record t { users = us })
        ]

unfoldable pub allow_anonymous : ℕ → TableAcl → TableAcl
allow_anonymous role t = record t { anon_allowed = true; anon_role = role }

unfoldable pub add_rule : Limits → ℕ → Bytes → ℕ → TableAcl → Option TableAcl
unfolding topic_filter_valid push_back
add_rule l role pattern access t =
    if not (topic_filter_valid pattern) || ltb l.max_pattern_len (length pattern)
    then none
    else elim (push_back l.max_rules t.rules
        (record { pattern = pattern; role = role; access = access })) [
          | none ↦ none
          | some rs ↦ some (record t { rules = rs })
        ]

-- The loop of `constant_time_eq`, over the shorter of the two.
unfoldable pub differences : ℕ → Bytes → Bytes → ℕ
differences diff [] b = diff
differences diff (x ∷ a) [] = diff
differences diff (x ∷ a) (y ∷ b) = differences (bit_or diff (bit_xor x y)) a b

unfoldable pub constant_time_eq : Bytes → Bytes → Bool
unfolding differences
constant_time_eq a b = differences (if length a == length b then 0 else 1) a b == 0

-- `a - b` on `unsigned`.
abbrev unsigned_sub : ℕ → ℕ → ℕ
unsigned_sub a b = (a + 2 ^ 32 - b) % 2 ^ 32

-- One turn of the loop of `authenticate` on (`found`, `role`).
unfoldable pub scan_user : Bytes → Bytes → User → ℕ × ℕ → ℕ × ℕ
unfolding constant_time_eq
scan_user username supplied u (found, role) =
    let name_hit = if constant_time_eq u.name username then 1 else 0 in
    let pw_hit = if constant_time_eq u.password supplied then 1 else 0 in
    let hit = bit_and name_hit pw_hit in
    let take = bit_and hit (bit_xor found 1) in
    (
      bit_or found hit,
      bit_or (bit_and role (unsigned_sub take 1)) (bit_and u.role (unsigned_sub 0 take)) % 2 ^ 8,
    )

unfoldable pub scan_users : Bytes → Bytes → List User → ℕ × ℕ → ℕ × ℕ
unfolding scan_user
scan_users username supplied [] s = s
scan_users username supplied (u ∷ us) s =
    scan_users username supplied us (scan_user username supplied u s)

-- The role goes out with `accepted` only, as `ctx.role` is written only there.
unfoldable pub authenticate :
    TableAcl → Bytes → Option Bytes → Option Bytes → ConnackCode × Option ℕ
unfolding scan_users
authenticate t client_id none password =
    if t.anon_allowed then (accepted, some t.anon_role) else (not_authorized, none)
authenticate t client_id (some username) password =
    let supplied = elim password as (λ _. Bytes) [ none ↦ [] | some b ↦ b ] in
    let (found, role) = scan_users username supplied t.users (0, 0) in
    if found == 0 then (bad_credentials, none) else (accepted, some role)

unfoldable pub allowed : List Rule → ℕ → ℕ → Bytes → Bool → Bool
unfolding topic_matches topic_filter_covers
allowed [] role need subject as_filter = false
allowed (r ∷ rs) role need subject as_filter =
    let rest = allowed rs role need subject as_filter in
    if not (r.role == role) || (bit_and r.access need == 0)
    then rest
    else if (if as_filter
        then topic_filter_covers r.pattern subject
        else topic_matches r.pattern subject)
    then true
    else rest

unfoldable pub authorize_publish : TableAcl → ℕ → Bytes → Bool
unfolding allowed
authorize_publish t role topic = allowed t.rules role write topic false

unfoldable pub authorize_receive : TableAcl → ℕ → Bytes → Bool
unfolding allowed
authorize_receive t role topic = allowed t.rules role read topic false

unfoldable pub authorize_subscribe : TableAcl → ℕ → Bytes → Bool
unfolding allowed
authorize_subscribe t role filter = allowed t.rules role read filter true
