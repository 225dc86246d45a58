-- ===== src/Batches/Tests.antt =====
-- The splitting of some measurements.
use observe_agent.Base.{◌≡◌, refl, ◌≢◌, Option, none, some, List, [], ◌∷◌, ◌++◌, Bytes}
use observe_agent.Batches.Fuel.{batches_fuelled}
use observe_agent.Batches.{failed, no_fuel, batches, batch_from, encode, encoded, sized, batches_of}
use observe_agent.Batches.Parts.{Serialized, batches-Serialized}

-- A measurement of n bytes.
abbrev bytes_of : List Bytes → Option Bytes
bytes_of [] = some []
bytes_of (x ∷ xs) = elim (bytes_of xs) [ none ↦ none | some ys ↦ some (x ++ ys) ]

abbrev three : List Bytes
three = (1 ∷ []) ∷ (2 ∷ []) ∷ (3 ∷ []) ∷ []

three_split : batches bytes_of 2 1024 three ≡ batches_of ((1 ∷ 2 ∷ []) ∷ (3 ∷ []) ∷ [])
unfolding batches batch_from encode encoded sized
three_split = refl

halved : encode bytes_of 2 1 4 three ≡ batches_of ((1 ∷ []) ∷ (2 ∷ []) ∷ (3 ∷ []) ∷ [])
unfolding encode encoded sized
halved = refl

batches-Serialized_example : Serialized bytes_of 2 1024 three ((1 ∷ 2 ∷ []) ∷ (3 ∷ []) ∷ [])
batches-Serialized_example =
    batches-Serialized bytes_of 2 1024 three ((1 ∷ 2 ∷ []) ∷ (3 ∷ []) ∷ []) three_split

batches_fuelled_example : batches bytes_of 2 1024 three ≢ failed no_fuel
batches_fuelled_example = batches_fuelled bytes_of 2 1024 three
