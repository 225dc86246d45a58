-- ===== src/Batches.antt =====
-- internal/pipeline/metrics.go: `Batches`, the splitting of the measurements into requests.
-- The serialization by pdata is a parameter: the bytes of some measurements, or an error.
pub mod Parts
pub mod Fuel
mod Tests
use observe_agent.Base.{
  ℕ, zero, suc, ◌+◌, ◌/◌, ◌||◌, Option, none, some, List, [], ◌∷◌, ◌++◌, ltb, leb, ◌==◌,
  if◌then◌else◌, length, take, drop, Bytes,
}

pub data Error : Type 0 where
  bad_limits not_serialized point_too_large no_fuel : Error

pub data Batched : Type 0 where
  batches_of : List Bytes → Batched
  failed : Error → Batched

abbrev pub joined : Batched → Batched → Batched
joined (batches_of xs) (batches_of ys) = batches_of (xs ++ ys)
joined (batches_of xs) (failed e) = failed e
joined (failed e) _ = failed e

module _ {A : Type 0} (marshal : List A → Option Bytes) (max_points max_bytes : ℕ) where
  -- The test of the size, and the halves.
  unfoldable pub sized : Bytes → List A → Batched → Batched
  sized raw points halves =
      if ltb max_bytes (length raw)
      then (if leb (length points) 1 then failed point_too_large else halves)
      else batches_of (raw ∷ [])

  unfoldable pub encoded : Option Bytes → List A → Batched → Batched
  encoded none points halves = failed not_serialized
  encoded (some raw) points halves = sized raw points halves

  -- The closure `encode`, on fuel.
  unfoldable pub encode : ℕ → List A → Batched
  encode zero points = failed no_fuel
  encode (suc fuel) points =
      let middle = length points / 2 in
      let left = encode fuel (take middle points) in
      let right = encode fuel (drop middle points) in
      encoded (marshal points) points (joined left right)

  -- The loop over the offsets, on fuel. A part is halved until it is one point.
  unfoldable pub batch_from : ℕ → List A → Batched
  batch_from zero points = failed no_fuel
  batch_from (suc fuel) points =
      let part = take max_points points in
      let rest = batch_from fuel (drop max_points points) in
      let whole = joined (encode (length part + 1) part) rest in
      elim points [ [] ↦ batches_of [] | _ ∷ _ ↦ whole ]

  -- `Batches`
  unfoldable pub batches : List A → Batched
  batches points =
      if max_points == 0 || ltb 1000 max_points || ltb max_bytes 1024
      then failed bad_limits
      else batch_from (length points + 1) points
