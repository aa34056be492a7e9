-- ===== src/Transports/StreamServer/Ledger.antt =====
-- include/minimosq/transports/posix/stream_server.hpp: what holds of every slot and of the descriptors
-- between two operations, read off what the transport did.
use minimosq_mqtt.Prelude.{
  ℕ, ◌+◌, ◌≡◌, ◌≢◌, false, Option, none, some, List, [], ◌∷◌, ◌++◌, ◌==◌, if◌then◌else◌, Bytes,
  get_elem?,
}
use minimosq_mqtt.Transports.Ring.Queue.{IsRing, contents}
use minimosq_mqtt.Transports.StreamServer.{
  Slot, Act, accepted_fd, closed_fd, taken, queued, wrote, StreamServer,
}
use minimosq_mqtt.Transports.Count.{one_if, sum_of}

-- The bytes queued for a slot and those written of it, since a connection last took it.
unfoldable pub queued_bytes : ℕ → List Act → Bytes
queued_bytes ci [] = []
queued_bytes ci (taken i ∷ acts) = let rest = queued_bytes ci acts in if i == ci then [] else rest
queued_bytes ci (queued i bytes ∷ acts) =
    let rest = queued_bytes ci acts in if i == ci then rest ++ bytes else rest
queued_bytes ci (_ ∷ acts) = queued_bytes ci acts

unfoldable pub wrote_bytes : ℕ → List Act → Bytes
wrote_bytes ci [] = []
wrote_bytes ci (taken i ∷ acts) = let rest = wrote_bytes ci acts in if i == ci then [] else rest
wrote_bytes ci (wrote i bytes ∷ acts) =
    let rest = wrote_bytes ci acts in if i == ci then rest ++ bytes else rest
wrote_bytes ci (_ ∷ acts) = wrote_bytes ci acts

-- How often a descriptor was accepted, was closed and is held.
abbrev pub gives : ℕ → Act → ℕ
gives fd (accepted_fd x) = one_if (x == fd)
gives fd _ = 0

abbrev pub closes : ℕ → Act → ℕ
closes fd (closed_fd x) = one_if (x == fd)
closes fd _ = 0

abbrev pub holds : ℕ → Option ℕ → ℕ
holds fd none = 0
holds fd (some x) = one_if (x == fd)

-- An open slot has written what was queued for it but for what its ring holds; a free one has nothing to
-- write.
pub record IsFlowing (c : ℕ) (acts : List Act) (ci : ℕ) (t : Slot) : Type 0 where
  pub ring : IsRing c t.ring
  pub open_one :
      (fd : ℕ) → t.fd ≡ some fd → queued_bytes ci acts ≡ wrote_bytes ci acts ++ contents c t.ring
  pub free_one : t.fd ≡ none → (t.ring.len ≡ 0) × (t.dirty ≡ false)

module _ {K : Type 0} where
  unfoldable pub Flows : ℕ → StreamServer K → Type 0
  Flows c s = (ci : ℕ) (t : Slot) → get_elem? s.slots ci ≡ some t → IsFlowing c s.acts ci t

  -- Each descriptor was accepted as often as it was closed, is held by a slot, or is in hand.
  unfoldable pub Balanced : (ℕ → ℕ) → StreamServer K → Type 0
  Balanced hand s =
      (fd : ℕ)
      → sum_of (gives fd) s.acts
        ≡ sum_of (closes fd) s.acts + sum_of (λ t. holds fd t.fd) s.slots + hand fd

  abbrev pub IsSound : ℕ → StreamServer K → Type 0
  IsSound c s = Flows c s × Balanced (λ fd. 0) s

-- An act says nothing of the other slots.
abbrev pub IsAbout : ℕ → Act → Type 0
IsAbout ci a =
    (i : ℕ) (acts : List Act)
    → i ≢ ci
    → (queued_bytes i (a ∷ acts) ≡ queued_bytes i acts)
      × (wrote_bytes i (a ∷ acts) ≡ wrote_bytes i acts)
