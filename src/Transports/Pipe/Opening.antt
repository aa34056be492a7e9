-- ===== src/Transports/Pipe/Opening.antt =====
-- include/minimosq/transports/posix/pipe.hpp: what `open` does to the descriptors.
use minimosq_mqtt.Prelude.{
  ℕ, ◌+◌, ◌≡◌, refl, ap, ◌∙◌, ◌⊎◌, inl, inr, Bool, true, false, not, ◌&&◌, ◌||◌, Option, none, some,
  ◌∷◌, arith, Bool-cases, Option-cases,
}
use minimosq_mqtt.Transports.Kernel.{Kernel, set_nonblocking}
use minimosq_mqtt.Transports.Count.{one_if, sum_of}
use minimosq_mqtt.Transports.Pipe.{
  took, Pipe, act, same_fd, close_pair, close_fds, unless_held, adopt, take_pair, open_fds,
}
use minimosq_mqtt.Transports.Pipe.Streams.{
  gives, closes, among, Balanced, IsSound, close_pair-IsShut, open_fds-IsSound,
}

-- A descriptor is one of those that an `open` closes: the ones held, and the ones given if it fails.
abbrev pub is_shut : {K : Type 0} → Option ℕ → Option ℕ → Pipe K → Bool → ℕ → Bool
is_shut read_fd write_fd p ok fd =
    (same_fd p.rfd (some fd) || same_fd p.wfd (some fd))
    || (not ok && (same_fd read_fd (some fd) || same_fd write_fd (some fd)))

count :
    (r w h : Bool)
    → one_if ((r && not h) || (w && not h)) + one_if h ≡ one_if (h || (true && (r || w)))
count r w true = ground arith
count r w false = ground arith

no_more : (h x : Bool) → one_if h ≡ one_if (h || (not true && x))
no_more true x = ground arith
no_more false x = ground arith

module _ {K : Type 0} (sys : Kernel K) (c : ℕ) where
  -- The pair is held, or none is; either way it was taken once.
  record IsTaken (a b : Option ℕ) (p : Pipe K) (r : Bool × Pipe K) : Type 0 where
    pub ends :
        ((r.0 ≡ true) × (r.1.rfd ≡ a) × (r.1.wfd ≡ b))
        ⊎ ((r.0 ≡ false) × (r.1.rfd ≡ p.rfd) × (r.1.wfd ≡ p.wfd))
    pub given : (fd : ℕ) → sum_of (gives fd) r.1.acts ≡ sum_of (gives fd) p.acts + among fd a b

  dropped-IsTaken :
      (a b : Option ℕ) (p q : Pipe K)
      → q.acts ≡ took a b ∷ p.acts
      → q.rfd ≡ p.rfd
      → q.wfd ≡ p.wfd
      → IsTaken a b p (false, close_pair sys a b q)
  unfolding sum_of
  dropped-IsTaken a b p q e r w =
      let s = close_pair-IsShut sys c a b q in
      record {
        ends = inr (refl, s.kept_rfd ∙ r, s.kept_wfd ∙ w);
        given = λ fd. omega (arith, s.given fd, ap (sum_of (gives fd)) e);
      }

  adopt-IsTaken :
      (r w : ℕ) (p : Pipe K)
      → IsTaken (some r) (some w) p (adopt sys r w (act (took (some r) (some w)) p))
  unfolding adopt sum_of
  adopt-IsTaken r w p =
      let first = set_nonblocking sys r p.kernel in
      let second = set_nonblocking sys w first.1 in
      elim (Bool-cases (not first.0 || not second.0)) [
        | inl h ↦ rw (h, adopt) (dropped-IsTaken (some r) (some w) p _ refl refl refl)
        | inr h ↦
            rw (h, adopt) (record { ends = inl (refl, refl, refl); given = λ fd. omega arith })
      ]

  take_pair-IsTaken : (a b : Option ℕ) (p : Pipe K) → IsTaken a b p (take_pair sys a b p)
  unfolding take_pair
  take_pair-IsTaken (some r) (some w) p = adopt-IsTaken r w p
  take_pair-IsTaken (some r) none p = dropped-IsTaken (some r) none p _ refl refl refl
  take_pair-IsTaken none b p = dropped-IsTaken none b p _ refl refl refl

  -- An end that is held is none of those given.
  unless_held-same :
      (fd : ℕ) (o : Option ℕ) (p : Pipe K)
      → same_fd (unless_held p o) (some fd)
        ≡ (same_fd o (some fd) && not (same_fd p.rfd (some fd) || same_fd p.wfd (some fd)))
  unless_held-same fd none p = ground arith
  unless_held-same fd (some x) p = elim (Option-cases p.rfd) [
    | inl e ↦ elim (Option-cases p.wfd) [
      | inl d ↦ rw (e, d) (ground arith)
      | inr (y, d) ↦ rw (e, d) (ground arith)
    ]
    | inr (z, e) ↦ elim (Option-cases p.wfd) [
      | inl d ↦ rw (e, d) (ground arith)
      | inr (y, d) ↦ rw (e, d) (ground arith)
    ]
  ]

  counted :
      (fd : ℕ) (r w : Option ℕ) (p : Pipe K)
      → among fd (unless_held p r) (unless_held p w) + among fd p.rfd p.wfd
        ≡ one_if (is_shut r w p false fd)
  counted fd r w p =
      rw (unless_held-same fd r p, unless_held-same fd w p)
        (count (same_fd r (some fd)) (same_fd w (some fd))
          (same_fd p.rfd (some fd) || same_fd p.wfd (some fd)))

  closes_of :
      (fd : ℕ) (r w : Option ℕ) (p : Pipe K)
      → IsSound c p
      → IsTaken (unless_held p r) (unless_held p w) (close_fds sys p) (open_fds sys r w p)
      → IsSound c (open_fds sys r w p).1
      → sum_of (closes fd) (open_fds sys r w p).1.acts
        ≡ sum_of (closes fd) p.acts + one_if (is_shut r w p (open_fds sys r w p).0 fd)
  unfolding close_fds Balanced
  closes_of fd r w p before t after =
      let s = close_pair-IsShut sys c p.rfd p.wfd p in
      elim t.ends [
        | inl (ok, e, d) ↦ rw ok (
            omega (
              arith,
              before.1 fd,
              after.1 fd,
              t.given fd,
              s.given fd,
              no_more (same_fd p.rfd (some fd) || same_fd p.wfd (some fd))
                  (same_fd r (some fd) || same_fd w (some fd)),
              ap (λ o. among fd o (open_fds sys r w p).1.wfd) e,
              ap (λ o. among fd (unless_held p r) o) d,
            ))
        | inr (ok, e, d) ↦ rw ok (
            omega (
              arith,
              before.1 fd,
              after.1 fd,
              t.given fd,
              s.given fd,
              counted fd r w p,
              ap (λ o. among fd o (open_fds sys r w p).1.wfd) e,
              ap (λ o. among fd none o) d,
            ))
      ]

  -- `open` with any descriptors, the ones held and one for both ends included, on a pipe that is
  -- sound leaves it sound, in success and in failure: each descriptor was taken as often as it
  -- was closed or is held, both ends are open or none is, and a closed pipe has nothing to write.
  -- This call closes the descriptors held and, if it fails, also the ones given, each of them once
  -- and no other.
  pub open_fds-closes :
      (read_fd write_fd : Option ℕ) (p : Pipe K)
      → IsSound c p
      → IsSound c (open_fds sys read_fd write_fd p).1
        × ((fd : ℕ)
            → sum_of (closes fd) (open_fds sys read_fd write_fd p).1.acts
              ≡ sum_of (closes fd) p.acts
                + one_if (is_shut read_fd write_fd p (open_fds sys read_fd write_fd p).0 fd))
  unfolding open_fds
  open_fds-closes r w p h =
      let after = open_fds-IsSound sys c r w p h in
      let taken_once = take_pair-IsTaken (unless_held p r) (unless_held p w) (close_fds sys p) in
      (after, λ fd. closes_of fd r w p h taken_once after)
