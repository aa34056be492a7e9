-- ===== src/Transports/Ring/Reading.antt =====
-- include/minimosq/transports/posix/common.hpp: reading round the array of `OutRing` behind writes to it.
use native.Mathlib.Nat.{mod-lt, mod-eq_of_lt, mod-eq-sub-mod, mod-add-mod}
use minimosq_mqtt.Transports.Ring.{write_from}
use minimosq_mqtt.Prelude.{
  ℕ, zero, suc, ◌+◌, ◌-◌, ◌%◌, ◌≤◌, ◌<◌, ◌≡◌, refl, sym, ap, ◌∙◌, ◌≢◌, ◌⊎◌, inl, inr, none, some,
  [], ◌∷◌, ◌++◌, arith, ltb, Bool-cases, Bytes, length, take, drop, drop-append, set, get_elem?,
  length-set, get_elem?-set_ne, get_elem?-set_self,
}

-- The byte at an index of the array.
unfoldable pub byte_at : Bytes → ℕ → ℕ
byte_at buf i = elim (get_elem? buf i) [ none ↦ 0 | some b ↦ b ]

-- The bytes at `i % capacity` for so many indices from one on.
unfoldable pub read_from : ℕ → Bytes → ℕ → ℕ → Bytes
read_from capacity buf i zero = []
read_from capacity buf i (suc n) = byte_at buf (i % capacity) ∷ read_from capacity buf (suc i) n

-- The remainder of a number below twice the capacity.
pub wrapped : (c i : ℕ) → i < c + c → ((i < c) × (i % c ≡ i)) ⊎ ((c ≤ i) × (i % c ≡ i - c))
wrapped c i h = elim (Bool-cases (ltb i c)) [
  | inl d ↦ inl (ground (arith, d), mod-eq_of_lt (ground (arith, d)))
  | inr d ↦
      let p : c ≤ i = ground (arith, d) in
      let q : i - c < c = omega arith in inr (p, mod-eq-sub-mod p ∙ mod-eq_of_lt q)
]

pub wrapped_ne : (c i j : ℕ) → i < j → j < i + c → j < c + c → i % c ≢ j % c
wrapped_ne c i j l m h e = ground (arith, wrapped c i (omega arith), wrapped c j h)

pub length-write_from : (c i : ℕ) (bs buf : Bytes) → length (write_from c i bs buf) ≡ length buf
unfolding write_from
length-write_from c i [] buf = refl
length-write_from c i (b ∷ bs) buf =
    length-write_from c (suc i) bs (set buf (i % c) b) ∙ length-set buf (i % c) b

pub length-read_from : (c : ℕ) (buf : Bytes) (i n : ℕ) → length (read_from c buf i n) ≡ n
unfolding read_from
length-read_from c buf i zero = refl
length-read_from c buf i (suc n) = ap suc (length-read_from c buf (suc i) n)

pub byte_at-set_ne : (buf : Bytes) (i j v : ℕ) → j ≢ i → byte_at (set buf i v) j ≡ byte_at buf j
unfolding byte_at
byte_at-set_ne buf i j v n = rw (get_elem?-set_ne buf i j v n, byte_at) refl

pub byte_at-set_self : (buf : Bytes) (i v : ℕ) → i < length buf → byte_at (set buf i v) i ≡ v
unfolding byte_at
byte_at-set_self buf i v l = rw (get_elem?-set_self buf i v l, byte_at) refl

pub read_from-set :
    (c : ℕ) (buf : Bytes) (i n j v : ℕ)
    → i + n ≤ j
    → j < i + c
    → j < c + c
    → read_from c (set buf (j % c) v) i n ≡ read_from c buf i n
unfolding read_from
read_from-set c buf i zero j v a b d = refl
read_from-set c buf i (suc n) j v a b d =
    let e = byte_at-set_ne buf (j % c) (i % c) v (wrapped_ne c i j (omega arith) b d) in
    rw (e, read_from-set c buf (suc i) n j v (omega arith) (omega arith) d) refl

-- Bytes written behind what is read leave it.
pub read_from-write_from :
    (c : ℕ) (bs buf : Bytes) (i n j : ℕ)
    → i + n ≤ j
    → j + length bs ≤ i + c
    → j + length bs ≤ c + c
    → read_from c (write_from c j bs buf) i n ≡ read_from c buf i n
unfolding write_from
read_from-write_from c [] buf i n j a b d = refl
read_from-write_from c (v ∷ bs) buf i n j a b d =
    read_from-write_from c bs (set buf (j % c) v) i n (suc j) (omega arith) (omega arith)
      (omega arith)
    ∙ read_from-set c buf i n j v a (omega arith) (omega arith)

pub written_back :
    (c : ℕ) (bs buf : Bytes) (i : ℕ)
    → length buf ≡ c
    → length bs ≤ c
    → i + length bs ≤ c + c
    → read_from c (write_from c i bs buf) i (length bs) ≡ bs
unfolding write_from read_from
written_back c [] buf i e l d = refl
written_back c (v ∷ bs) buf i e l d =
    let buf1 = set buf (i % c) v in
    let one =
      read_from-write_from c bs buf1 i 1 (suc i) (omega arith) (omega arith) (omega arith) in
    let head : byte_at (write_from c (suc i) bs buf1) (i % c) ≡ byte_at buf1 (i % c) =
      grind (arith, one) in
    let l1 : i % c < length buf = rw e (mod-lt i (omega arith)) in
    let rest =
      written_back c bs buf1 (suc i) (length-set buf (i % c) v ∙ e) (omega arith) (omega arith) in
    rw (head, byte_at-set_self buf (i % c) v l1, rest) refl

pub read_from-add :
    (c : ℕ) (buf : Bytes) (i m n : ℕ)
    → read_from c buf i (m + n) ≡ read_from c buf i m ++ read_from c buf (i + m) n
unfolding read_from
read_from-add c buf i zero n =
    let e : i + 0 ≡ i = omega arith in let d : 0 + n ≡ n = omega arith in rw (e, d) refl
read_from-add c buf i (suc m) n =
    let e : suc m + n ≡ suc (m + n) = omega arith in
    let d : i + suc m ≡ suc i + m = omega arith in
    rw (e, d) (ap (◌∷◌ (byte_at buf (i % c))) (read_from-add c buf (suc i) m n))

pub read_from_shift :
    (c : ℕ) (buf : Bytes) (n i j : ℕ) → i % c ≡ j % c → read_from c buf i n ≡ read_from c buf j n
unfolding read_from
read_from_shift c buf zero i j e = refl
read_from_shift c buf (suc n) i j e =
    let one : (k : ℕ) → suc k ≡ k + 1 = λ k. omega arith in
    let next : suc i % c ≡ suc j % c =
      ap (λ k. k % c) (one i)
      ∙ sym (mod-add-mod i c 1)
      ∙ ap (λ k. (k + 1) % c) e
      ∙ mod-add-mod j c 1
      ∙ ap (λ k. k % c) (sym (one j)) in
    rw (e, read_from_shift c buf n (suc i) (suc j) next) refl

pub byte_at-drop :
    (buf : Bytes) (i : ℕ) → i < length buf → drop i buf ≡ byte_at buf i ∷ drop (suc i) buf
unfolding byte_at
byte_at-drop [] i l = absurd (omega arith)
byte_at-drop (b ∷ buf) zero l = refl
byte_at-drop (b ∷ buf) (suc i) l = byte_at-drop buf i (omega arith)

pub read_from-take :
    (c : ℕ) (buf : Bytes) (i n : ℕ)
    → length buf ≡ c
    → i + n ≤ c
    → take n (drop i buf) ≡ read_from c buf i n
unfolding read_from
read_from-take c buf i zero e l = refl
read_from-take c buf i (suc n) e l =
    rw (byte_at-drop buf i (omega arith), mod-eq_of_lt {n = i} {m = c} (omega arith))
      (ap (◌∷◌ (byte_at buf i)) (read_from-take c buf (suc i) n e (omega arith)))

pub drop_all : (n : ℕ) (bs : Bytes) → length bs ≤ n → drop n bs ≡ []
drop_all zero [] l = refl
drop_all zero (b ∷ bs) l = absurd (omega arith)
drop_all (suc n) [] l = refl
drop_all (suc n) (b ∷ bs) l = drop_all n bs (omega arith)

-- What is read behind the first bytes.
pub read_from-drop :
    (c : ℕ) (buf : Bytes) (i m n : ℕ)
    → m ≤ n
    → drop m (read_from c buf i n) ≡ read_from c buf (i + m) (n - m)
read_from-drop c buf i m n l =
    let first = read_from c buf i m in
    let rest = read_from c buf (i + m) (n - m) in
    let e : m + (n - m) ≡ n = omega arith in
    ap (λ k. drop m (read_from c buf i k)) (sym e)
    ∙ ap (drop m) (read_from-add c buf i m (n - m))
    ∙ ap (λ k. drop k (first ++ rest)) (sym (length-read_from c buf i m))
    ∙ drop-append first rest
