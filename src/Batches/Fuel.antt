-- ===== src/Batches/Fuel.antt =====
-- internal/pipeline/metrics.go: the loop and the halving of `Batches` end.
use observe_agent.Base.{
  ℕ, zero, suc, ◌+◌, ◌/◌, ◌<◌, ◌≡◌, refl, ◌≢◌, Bool, true, false, ◌||◌, Option, none, some, List,
  [], ◌∷◌, arith, ltb, leb, ◌==◌, if◌then◌else◌, length, take, drop, length-take, length-drop,
  Bytes,
}
use observe_agent.Batches.{
  point_too_large, bad_limits, Batched, batches_of, failed, joined, sized, encoded, encode,
  batch_from, batches, no_fuel,
}

joined_fuelled :
    (x y : Batched) → x ≢ failed no_fuel → y ≢ failed no_fuel → joined x y ≢ failed no_fuel
joined_fuelled (batches_of xs) (batches_of ys) f g h = cc
joined_fuelled (batches_of xs) (failed e) f g h = g h
joined_fuelled (failed e) y f g h = f h

module _ {A : Type 0} (marshal : List A → Option Bytes) (max_points max_bytes : ℕ) where
  encoded_fuelled :
      (o : Option Bytes) (points : List A) (halves : Batched)
      → (1 < length points → halves ≢ failed no_fuel)
      → encoded marshal max_points max_bytes o points halves ≢ failed no_fuel
  unfolding encoded sized
  encoded_fuelled none points halves f h = cc
  encoded_fuelled (some raw) points halves f h =
      go (ltb max_bytes (length raw)) (leb (length points) 1) refl h
    where
      go :
          (big one : Bool)
          → leb (length points) 1 ≡ one
          → (if big
              then (if one then failed point_too_large else halves)
              else batches_of (raw ∷ []))
            ≡ failed no_fuel
          → ⊥
      go true true e k = cc
      go true false e k = f (several e) k
        where
          several : leb (length points) 1 ≡ false → 1 < length points
          several y = ground arith
      go false one e k = cc

  -- With more fuel than there are points, the closure `encode` ends: each half has fewer points.
  pub encode_fuelled :
      (fuel : ℕ) (points : List A)
      → length points < fuel
      → encode marshal max_points max_bytes fuel points ≢ failed no_fuel
  unfolding encode
  encode_fuelled zero points le h = absurd (omega arith)
  encode_fuelled (suc fuel) points le h =
      let middle = length points / 2 in
      encoded_fuelled (marshal points) points _
        (λ more.
          joined_fuelled (encode marshal max_points max_bytes fuel (take middle points))
            (encode marshal max_points max_bytes fuel (drop middle points))
            (encode_fuelled fuel (take middle points) (omega (arith, length-take middle points)))
            (encode_fuelled fuel (drop middle points) (omega (arith, length-drop middle points))))
        h

  -- With more fuel than there are points the loop ends: each part takes at least one point.
  batch_from_fuelled :
      (fuel : ℕ) (points : List A)
      → 0 < max_points
      → length points < fuel
      → batch_from marshal max_points max_bytes fuel points ≢ failed no_fuel
  unfolding batch_from
  batch_from_fuelled zero points p le h = absurd (omega arith)
  batch_from_fuelled (suc fuel) [] p le h = cc
  batch_from_fuelled (suc fuel) (x ∷ points) p le h =
      let all = x ∷ points in
      let part = take max_points all in
      joined_fuelled (encode marshal max_points max_bytes (length part + 1) part)
        (batch_from marshal max_points max_bytes fuel (drop max_points all))
        (encode_fuelled (length part + 1) part (omega arith))
        (batch_from_fuelled fuel (drop max_points all) p
          (omega (arith, length-drop max_points all)))
        h

  -- Batches never runs out of fuel, whatever the serialization gives: the loop over the offsets ends
  -- with one pass more than there are points, since each pass takes a point, and the halving ends,
  -- since each half has fewer points.
  pub batches_fuelled :
      (points : List A) → batches marshal max_points max_bytes points ≢ failed no_fuel
  unfolding batches
  batches_fuelled points h = go (max_points == 0) (ltb 1000 max_points) (ltb max_bytes 1024) refl h
    where
      go :
          (z a b : Bool)
          → (max_points == 0) ≡ z
          → (if z || a || b
              then failed bad_limits
              else batch_from marshal max_points max_bytes (length points + 1) points)
            ≡ failed no_fuel
          → ⊥
      go true a b e k = cc
      go false true b e k = cc
      go false false true e k = cc
      go false false false e k =
          batch_from_fuelled (length points + 1) points (nonzero e) (omega arith) k
        where
          nonzero : (max_points == 0) ≡ false → 0 < max_points
          nonzero y = ground arith
