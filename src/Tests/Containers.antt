-- ===== src/Tests/Containers.antt =====
-- The containers on a pool of three slots.
use minimosq_mqtt.Prelude.{ℕ, refl, none, some, [], ◌∷◌, arith}
use minimosq_mqtt.Core.StaticVector.Slots.{Storage, IsVector}
use minimosq_mqtt.Core.StaticVector.Contents.{IsList, vector-IsList}
use minimosq_mqtt.Core.Pool.{Pool, alloc, live}
use minimosq_mqtt.Core.Pool.Invariant.{IsValid, Allocates, alloc-Allocates}

abbrev slots : Pool ℕ
slots = record { slots = some 5 ∷ none ∷ some 6 ∷ []; count = 2 }

slots-IsValid : IsValid 3 slots
unfolding live
slots-IsValid = record { sized = refl; counted = refl }

alloc-Allocates_example : Allocates 3 9 slots (alloc 9 slots)
alloc-Allocates_example = alloc-Allocates 3 9 slots slots-IsValid

-- Three elements on five slots.
abbrev items : Storage ℕ
items = record { slots = 7 ∷ 8 ∷ 9 ∷ 4 ∷ 4 ∷ []; size = 3 }

items-IsVector : IsVector 5 items
items-IsVector = record { sized = refl; bounded = omega arith }

vector-IsList_example : IsList 5 0 items
vector-IsList_example = vector-IsList 5 0 items items-IsVector
