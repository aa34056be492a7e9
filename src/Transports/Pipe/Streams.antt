-- ===== src/Transports/Pipe/Streams.antt =====
-- include/minimosq/transports/posix/pipe.hpp: what holds of the ring and of the descriptors between two
-- operations, and that the operations keep it.
use minimosq_mqtt.Prelude.{
  ℕ, ◌+◌, ◌<◌, ◌≡◌, refl, sym, ap, subst, ◌∙◌, inl, inr, true, false, not, ◌||◌, Option, none, some,
  List, [], ◌∷◌, ◌++◌, append-nil, arith, ◌==◌, if◌then◌else◌, Bool-cases, Bytes,
}
use minimosq_mqtt.Transports.Ring.{new_ring, clear}
use minimosq_mqtt.Transports.Ring.Queue.{
  IsRing, contents, clear-contents, no_contents, new_ring-IsRing,
}
use minimosq_mqtt.Transports.Kernel.{Kernel, set_nonblocking}
use minimosq_mqtt.Transports.Count.{one_if, sum_of}
use minimosq_mqtt.Transports.Pipe.{
  new_pipe, Act, took, closed_fd, queued, wrote, Pipe, act, same_fd, is_open, shut_fd, close_pair,
  close_fds, unless_held, adopt, take_pair, open_fds,
}

-- The bytes queued and those written, since `open` last took a pair.
unfoldable pub queued_bytes : List Act → Bytes
queued_bytes [] = []
queued_bytes (took a b ∷ acts) = []
queued_bytes (queued bytes ∷ acts) = queued_bytes acts ++ bytes
queued_bytes (_ ∷ acts) = queued_bytes acts

unfoldable pub wrote_bytes : List Act → Bytes
wrote_bytes [] = []
wrote_bytes (took a b ∷ acts) = []
wrote_bytes (wrote bytes ∷ acts) = wrote_bytes acts ++ bytes
wrote_bytes (_ ∷ acts) = wrote_bytes acts

-- A descriptor is one of a pair.
abbrev pub among : ℕ → Option ℕ → Option ℕ → ℕ
among fd a b = one_if (same_fd a (some fd) || same_fd b (some fd))

abbrev pub gives : ℕ → Act → ℕ
gives fd (took a b) = among fd a b
gives fd _ = 0

abbrev pub closes : ℕ → Act → ℕ
closes fd (closed_fd x) = one_if (x == fd)
closes fd _ = 0

module _ {K : Type 0} where
  -- A pair is held or no descriptor is; an open pipe has written what was queued but for what its ring
  -- holds, and a closed one has nothing to write.
  pub record IsFlowing (c : ℕ) (p : Pipe K) : Type 0 where
    pub ring : IsRing c p.ring
    pub paired : is_open p.rfd ≡ is_open p.wfd
    pub stream :
        is_open p.wfd ≡ true → queued_bytes p.acts ≡ wrote_bytes p.acts ++ contents c p.ring
    pub idle : is_open p.wfd ≡ false → (p.ring.len ≡ 0) × (p.dirty ≡ false)

  -- Each descriptor was taken as often as it was closed, is held, or is in hand.
  unfoldable pub Balanced : (ℕ → ℕ) → Pipe K → Type 0
  Balanced hand p =
      (fd : ℕ)
      → sum_of (gives fd) p.acts ≡ sum_of (closes fd) p.acts + among fd p.rfd p.wfd + hand fd

  abbrev pub IsSound : ℕ → Pipe K → Type 0
  IsSound c p = IsFlowing c p × Balanced (λ fd. 0) p

-- What the closing of descriptors leaves, with how often it closes each.
pub record IsShut {K : Type 0} (n : ℕ → ℕ) (p q : Pipe K) : Type 0 where
  pub kept_ring : q.ring ≡ p.ring
  pub kept_dirty : q.dirty ≡ p.dirty
  pub kept_queued : queued_bytes q.acts ≡ queued_bytes p.acts
  pub kept_wrote : wrote_bytes q.acts ≡ wrote_bytes p.acts
  pub given : (fd : ℕ) → sum_of (gives fd) q.acts ≡ sum_of (gives fd) p.acts
  pub shut : (fd : ℕ) → sum_of (closes fd) q.acts ≡ sum_of (closes fd) p.acts + n fd
  pub kept_rfd : q.rfd ≡ p.rfd
  pub kept_wfd : q.wfd ≡ p.wfd

module _ {K : Type 0} (sys : Kernel K) (c : ℕ) where
  shut_fd-IsShut : (o : Option ℕ) (p : Pipe K) → IsShut (λ fd. among fd o none) p (shut_fd sys o p)
  unfolding shut_fd queued_bytes wrote_bytes sum_of
  shut_fd-IsShut none p = record {
    kept_ring = refl;
    kept_dirty = refl;
    kept_queued = refl;
    kept_wrote = refl;
    given = λ fd. refl;
    shut = λ fd. omega arith;
    kept_rfd = refl;
    kept_wfd = refl;
  }
  shut_fd-IsShut (some x) p = record {
    kept_ring = refl;
    kept_dirty = refl;
    kept_queued = refl;
    kept_wrote = refl;
    given = λ fd. omega arith;
    shut = λ fd. ground arith;
    kept_rfd = refl;
    kept_wfd = refl;
  }

  among-split :
      (fd : ℕ) (a b : Option ℕ)
      → among fd a b ≡ among fd a none + among fd (if same_fd b a then none else b) none
  among-split fd none none = omega arith
  among-split fd none (some y) = ground arith
  among-split fd (some x) none = ground arith
  among-split fd (some x) (some y) = ground arith

  pub close_pair-IsShut :
      (a b : Option ℕ) (p : Pipe K) → IsShut (λ fd. among fd a b) p (close_pair sys a b p)
  unfolding close_pair
  close_pair-IsShut a b p =
      let first = shut_fd-IsShut a p in
      let second = shut_fd-IsShut (if same_fd b a then none else b) (shut_fd sys a p) in
      record {
        kept_ring = second.kept_ring ∙ first.kept_ring;
        kept_dirty = second.kept_dirty ∙ first.kept_dirty;
        kept_queued = second.kept_queued ∙ first.kept_queued;
        kept_wrote = second.kept_wrote ∙ first.kept_wrote;
        given = λ fd. second.given fd ∙ first.given fd;
        shut = λ fd. omega (arith, first.shut fd, second.shut fd, among-split fd a b);
        kept_rfd = second.kept_rfd ∙ first.kept_rfd;
        kept_wfd = second.kept_wfd ∙ first.kept_wfd;
      }

  -- Closed, with nothing in hand but `hand`.
  abbrev IsOff : (ℕ → ℕ) → Pipe K → Type 0
  IsOff hand p = IsFlowing c p × Balanced hand p × (p.rfd ≡ none) × (p.wfd ≡ none)

  pub close_fds-IsOff : (p : Pipe K) → IsSound c p → IsOff (λ fd. 0) (close_fds sys p)
  unfolding close_fds Balanced clear
  close_fds-IsOff p (f, b) =
      let s = close_pair-IsShut p.rfd p.wfd p in
      (
        record {
          ring = (clear-contents c p.ring f.ring).0;
          paired = refl;
          stream = λ e. absurd (grind (arith, e));
          idle = λ e. (refl, refl);
        },
        λ fd. omega (arith, b fd, s.given fd, s.shut fd),
        refl,
        refl,
      )

  taken-Balanced :
      (a b : Option ℕ) (p : Pipe K)
      → IsOff (λ fd. 0) p
      → IsOff (λ fd. among fd a b) (act (took a b) p)
  unfolding Balanced sum_of
  taken-Balanced a b p (f, w, r, e) = (
    record {
      ring = f.ring;
      paired = f.paired;
      stream = λ o. absurd (grind (arith, o, e));
      idle = f.idle;
    },
    λ fd. omega (arith, w fd),
    r,
    e,
  )

  -- The hand is emptied.
  dropped-IsSound :
      (a b : Option ℕ) (p : Pipe K)
      → IsOff (λ fd. among fd a b) p
      → IsSound c (close_pair sys a b p)
  unfolding Balanced
  dropped-IsSound a b p (f, w, r, e) =
      let s = close_pair-IsShut a b p in
      (
        record {
          ring = subst (IsRing c) (sym s.kept_ring) f.ring;
          paired = rw (s.kept_rfd, s.kept_wfd) f.paired;
          stream = λ o. absurd (grind (arith, o, e, s.kept_wfd));
          idle = λ o. rw (s.kept_ring, s.kept_dirty) (f.idle (ap is_open e));
        },
        λ fd. rw (s.kept_rfd, s.kept_wfd) (omega (arith, w fd, s.given fd, s.shut fd)),
      )

  adopt-IsSound :
      (r w : ℕ) (p : Pipe K)
      → IsOff (λ fd. among fd (some r) (some w)) p
      → queued_bytes p.acts ≡ wrote_bytes p.acts
      → IsSound c (adopt sys r w p).1
  unfolding adopt Balanced
  adopt-IsSound r w p (f, b, e, d) same =
      let first = set_nonblocking sys r p.kernel in
      let second = set_nonblocking sys w first.1 in
      let p1 : Pipe K = record p { kernel = second.1 } in
      let off : IsOff (λ fd. among fd (some r) (some w)) p1 =
        (record { ring = f.ring; paired = f.paired; stream = f.stream; idle = f.idle }, b, e, d) in
      elim (Bool-cases (not first.0 || not second.0)) [
        | inl h ↦ rw (h, adopt) (dropped-IsSound (some r) (some w) p1 off)
        | inr h ↦
            rw (h, adopt)
              (
                record {
                  ring = f.ring;
                  paired = refl;
                  stream = λ o.
                      same
                      ∙ sym (append-nil (wrote_bytes p.acts))
                      ∙ ap (◌++◌ (wrote_bytes p.acts))
                          (sym (no_contents c p.ring (f.idle (ap is_open d)).0));
                  idle = λ o. absurd (grind (arith, o));
                },
                λ fd.
                    omega (arith, b fd, ap (λ o. among fd o p.wfd) e, ap (λ o. among fd none o) d),
              )
      ]

  take_pair-IsSound :
      (a b : Option ℕ) (p : Pipe K) → IsOff (λ fd. 0) p → IsSound c (take_pair sys a b p).1
  unfolding take_pair queued_bytes wrote_bytes
  take_pair-IsSound (some r) (some w) p h =
      adopt-IsSound r w _ (taken-Balanced (some r) (some w) p h) refl
  take_pair-IsSound (some r) none p h =
      dropped-IsSound (some r) none _ (taken-Balanced (some r) none p h)
  take_pair-IsSound none b p h = dropped-IsSound none b _ (taken-Balanced none b p h)

  pub open_fds-IsSound :
      (read_fd write_fd : Option ℕ) (p : Pipe K)
      → IsSound c p
      → IsSound c (open_fds sys read_fd write_fd p).1
  unfolding open_fds
  open_fds-IsSound read_fd write_fd p h =
      take_pair-IsSound (unless_held p read_fd) (unless_held p write_fd) (close_fds sys p)
        (close_fds-IsOff p h)

pub new_pipe-IsSound : {K : Type 0} (c : ℕ) (k : K) → 0 < c → IsSound c (new_pipe c k)
unfolding new_pipe Balanced sum_of new_ring
new_pipe-IsSound c k l = (
  record {
    ring = (new_ring-IsRing c l).0;
    paired = refl;
    stream = λ o. absurd (grind (arith, o));
    idle = λ o. (refl, refl);
  },
  λ fd. omega arith,
)
