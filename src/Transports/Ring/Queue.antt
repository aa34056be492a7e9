-- ===== src/Transports/Ring/Queue.antt =====
-- include/minimosq/transports/posix/common.hpp: `OutRing` as a queue of bytes.
use minimosq_mqtt.Transports.Ring.Reading.{
  read_from, length-write_from, length-read_from, read_from-write_from, written_back, read_from-add,
  read_from_shift, read_from-take, drop_all, read_from-drop,
}
use mathlib.Core.Option
use native.Mathlib.Nat.{mod-lt, mod-mod}
use minimosq_mqtt.Transports.Ring.{
  OutRing, new_ring, write_from, append, front_chunk, consume, is_empty, clear,
}
use minimosq_mqtt.Prelude.{
  ◌⊎◌, inl, inr, Bool-cases, ℕ, ◌+◌, ◌-◌, ◌≤◌, ◌<◌, ◌≡◌, refl, sym, ap, subst, ◌∙◌, ◌↔◌, false,
  none, some, [], ◌++◌, arith, ltb, if◌then◌else◌, Bytes, length, take, drop, take-append,
  length-replicate, Option-cases, true,
}
use mathlib.Core.Option.{Option}

-- The queue that a ring stands for.
unfoldable pub contents : ℕ → OutRing → Bytes
contents capacity r = read_from capacity r.buf r.head r.len

pub record IsRing (capacity : ℕ) (r : OutRing) : Type 0 where
  pub sized : length r.buf ≡ capacity
  pub inside : r.head < capacity
  pub bounded : r.len ≤ capacity

pub new_ring-IsRing : (c : ℕ) → 0 < c → IsRing c (new_ring c) × (contents c (new_ring c) ≡ [])
unfolding new_ring contents read_from
new_ring-IsRing c l =
    (record { sized = length-replicate c 0; inside = l; bounded = omega arith }, refl)

pub length-contents : (c : ℕ) (r : OutRing) → length (contents c r) ≡ r.len
unfolding contents
length-contents c r = length-read_from c r.buf r.head r.len

pub append-contents :
    (c : ℕ) (bs : Bytes) (r s : OutRing)
    → IsRing c r
    → append c bs r ≡ some s
    → IsRing c s × (contents c s ≡ contents c r ++ bs)
unfolding append contents
append-contents c bs r s v e = elim (Bool-cases (ltb c (r.len + length bs))) [
  | inl d ↦ absurd (grind (arith, rw (d, append) at e))
  | inr d ↦
      let fits : r.len + length bs ≤ c = ground (arith, d) in
      let inside = v.inside in
      let buf1 = write_from c (r.head + r.len) bs r.buf in
      let kept =
        read_from-write_from c bs r.buf r.head r.len (r.head + r.len) (omega arith) (omega arith)
          (omega arith) in
      let added = written_back c bs r.buf (r.head + r.len) v.sized (omega arith) (omega arith) in
      subst
        (λ x. IsRing c x × (read_from c x.buf x.head x.len ≡ read_from c r.buf r.head r.len ++ bs))
        (grind (arith, rw (d, append) at e))
        (
          record {
            sized = length-write_from c (r.head + r.len) bs r.buf ∙ v.sized;
            inside = inside;
            bounded = fits;
          },
          read_from-add c buf1 r.head r.len (length bs) ∙ rw (kept, added) refl,
        )
]

pub append_refuses :
    (c : ℕ) (bs : Bytes) (r : OutRing)
    → (append c bs r ≡ none) ↔ (c < length (contents c r) + length bs)
unfolding append
append_refuses c bs r = rw (length-contents c r) (ground arith)

pub consume-contents :
    (c n : ℕ) (r : OutRing)
    → IsRing c r
    → IsRing c (consume c n r) × (contents c (consume c n r) ≡ drop n (contents c r))
unfolding consume contents read_from
consume-contents c n r v =
    let inside = v.inside in
    let bounded = v.bounded in
    let at = mod-lt (r.head + n) {m = c} (omega arith) in
    let end = mod-lt (r.head + r.len) {m = c} (omega arith) in
    elim (Bool-cases (ltb r.len n)) [
      | inl d ↦
          rw (d, consume)
            (
              record { sized = v.sized; inside = end; bounded = omega arith },
              let none_left : r.len - r.len ≡ 0 = omega arith in
                  rw none_left (
                    sym (
                      drop_all n (read_from c r.buf r.head r.len)
                        (rw (length-read_from c r.buf r.head r.len) (ground (arith, d))))),
            )
      | inr d ↦
          rw (d, consume)
            (
              record { sized = v.sized; inside = at; bounded = omega arith },
              read_from_shift c r.buf (r.len - n) _ _ (mod-mod (r.head + n) c)
                  ∙ sym (read_from-drop c r.buf r.head n r.len (ground (arith, d))),
            )
    ]

fronted :
    (c : ℕ) (buf : Bytes) (h n k : ℕ)
    → length buf ≡ c
    → h + k ≤ c
    → k ≤ n
    → (take k (drop h buf) ≡ take (length (take k (drop h buf))) (read_from c buf h n))
      × (length (take k (drop h buf)) ≡ k)
fronted c buf h n k e l m =
    let first = read_from c buf h k in
    let rest = read_from c buf (h + k) (n - k) in
    let whole : read_from c buf h n ≡ first ++ rest =
      ap (read_from c buf h) (omega arith) ∙ read_from-add c buf h k (n - k) in
    rw (read_from-take c buf h k e l, whole)
      (sym (take-append first rest), length-read_from c buf h k)

pub front_chunk-contents :
    (c : ℕ) (r : OutRing)
    → IsRing c r
    → (front_chunk c r ≡ take (length (front_chunk c r)) (contents c r))
      × (is_empty r ≡ false → 0 < length (front_chunk c r))
unfolding front_chunk contents is_empty
front_chunk-contents c r v =
    let inside = v.inside in
    let tail_room = c - r.head in
    let k = if ltb r.len tail_room then r.len else tail_room in
    let (same, size) = fronted c r.buf r.head r.len k v.sized (ground arith) (ground arith) in
    (same, λ e. ground (arith, size, e))

pub clear-contents :
    (c : ℕ) (r : OutRing) → IsRing c r → IsRing c (clear r) × (contents c (clear r) ≡ [])
unfolding clear contents read_from
clear-contents c r v =
    let inside = v.inside in
    (record { sized = v.sized; inside = omega arith; bounded = omega arith }, refl)

pub no_contents : (c : ℕ) (r : OutRing) → r.len ≡ 0 → contents c r ≡ []
unfolding contents read_from
no_contents c r e = ap (read_from c r.buf r.head) e

-- The queue that `append` leaves.
unfoldable pub appended : ℕ → Bytes → Bytes → Option Bytes
appended capacity bytes queue =
    if ltb capacity (length queue + length bytes) then none else some (queue ++ bytes)

append-queue :
    (c : ℕ) (bs : Bytes) (r : OutRing)
    → IsRing c r
    → Option.map (contents c) (append c bs r) ≡ appended c bs (contents c r)
unfolding appended append
append-queue c bs r v = elim (Option-cases (append c bs r)) [
  | inl d ↦
      let full : ltb c (length (contents c r) + length bs) ≡ true =
        ground (arith, (append_refuses c bs r).0 d) in
      rw (d, full, appended) refl
  | inr (s, d) ↦
      let room : ltb c (length (contents c r) + length bs) ≡ false =
        ground (arith, (append_refuses c bs r).1, d) in
      rw (d, room, appended) (ap some (append-contents c bs r s v d).1)
]

-- The ring is valid, if there is one.
abbrev pub AreRings : ℕ → Option OutRing → Type 0
AreRings c none = Unit
AreRings c (some r) = IsRing c r

append-AreRings : (c : ℕ) (bs : Bytes) (r : OutRing) → IsRing c r → AreRings c (append c bs r)
append-AreRings c bs r v = elim (Option-cases (append c bs r)) [
  | inl d ↦ rw d tt
  | inr (s, d) ↦ rw d (append-contents c bs r s v d).0
]

-- A ring does what the queue of its bytes does: `append` puts a span at the end or, where the capacity is
-- exceeded, refuses it; `consume` drops bytes from the front, `clear` all of them, and the chunk for a write
-- is a part of the front, with a byte in it unless the ring is empty.
pub record IsQueue (c : ℕ) (r : OutRing) : Type 0 where
  pub appends :
      (bs : Bytes) → Option.map (contents c) (append c bs r) ≡ appended c bs (contents c r)
  pub appends_valid : (bs : Bytes) → AreRings c (append c bs r)
  pub consumes : (n : ℕ) → contents c (consume c n r) ≡ drop n (contents c r)
  pub consumes_valid : (n : ℕ) → IsRing c (consume c n r)
  pub clears : contents c (clear r) ≡ []
  pub clears_valid : IsRing c (clear r)
  pub front : front_chunk c r ≡ take (length (front_chunk c r)) (contents c r)
  pub front_some : (is_empty r ≡ true) ⊎ (0 < length (front_chunk c r))

-- A valid ring is a queue of bytes: `append` puts a span at the end or refuses it exactly when
-- the capacity is exceeded, `consume` drops from the front, at most all, `clear` empties it,
-- each leaves a valid ring, and the chunk for a write is a part of the front, with a byte in it
-- unless the ring is empty.
pub ring-IsQueue : (c : ℕ) (r : OutRing) → IsRing c r → IsQueue c r
ring-IsQueue c r v = record {
  appends = λ bs. append-queue c bs r v;
  appends_valid = λ bs. append-AreRings c bs r v;
  consumes = λ n. (consume-contents c n r v).1;
  consumes_valid = λ n. (consume-contents c n r v).0;
  clears = (clear-contents c r v).1;
  clears_valid = (clear-contents c r v).0;
  front = (front_chunk-contents c r v).0;
  front_some = elim (Bool-cases (is_empty r)) [
    | inl e ↦ inl e
    | inr e ↦ inr ((front_chunk-contents c r v).1 e)
  ];
}
