-- ===== src/Batches/Parts.antt =====
-- internal/pipeline/metrics.go: the batches are the measurements, in order, within the byte limit.
use observe_agent.Base.{
  ℕ, zero, suc, ◌+◌, ◌/◌, ◌≤◌, ◌<◌, ◌≡◌, refl, sym, ap, subst, ◌⊎◌, inl, inr, Bool, true, false,
  ◌||◌, Option, none, some, List, [], ◌∷◌, ◌++◌, arith, ltb, leb, ◌==◌, if◌then◌else◌, Bool-cases,
  length, take, drop, take-append-drop, Bytes,
}
use observe_agent.Batches.{
  point_too_large, Batched, batches_of, failed, joined, sized, encoded, encode, batch_from, batches,
}

module _ {A : Type 0} (marshal : List A → Option Bytes) (max_points max_bytes : ℕ) where
  -- The batches `bs` serialize consecutive parts of the points, each within the byte limit.
  pub data Serialized : List A → List Bytes → Type 0 where
    nothing : Serialized [] []
    part :
        {rest : List A} {bs : List Bytes} (points : List A) (raw : Bytes)
        → marshal points ≡ some raw
        → length raw ≤ max_bytes
        → Serialized rest bs
        → Serialized (points ++ rest) (raw ∷ bs)

  append_assoc : {B : Type 0} (xs ys zs : List B) → (xs ++ ys) ++ zs ≡ xs ++ (ys ++ zs)
  append_assoc [] ys zs = refl
  append_assoc (x ∷ xs) ys zs = ap (λ r. x ∷ r) (append_assoc xs ys zs)

  append_nil : {B : Type 0} (xs : List B) → xs ++ [] ≡ xs
  append_nil [] = refl
  append_nil (x ∷ xs) = ap (λ r. x ∷ r) (append_nil xs)

  Serialized-append :
      (xs ys : List A) (bs cs : List Bytes)
      → Serialized xs bs
      → Serialized ys cs
      → Serialized (xs ++ ys) (bs ++ cs)
  Serialized-append _ ys _ cs nothing t = t
  Serialized-append _ ys _ cs (part {rest = rest} {bs = bs} points raw m l s) t =
      subst (λ z. Serialized z (raw ∷ (bs ++ cs))) (sym (append_assoc points rest ys))
        (part points raw m l (Serialized-append rest ys bs cs s t))

  joined_parts :
      (x y : Batched) (bs : List Bytes)
      → joined x y ≡ batches_of bs
      → (xs : List Bytes) × (ys : List Bytes) × (x ≡ batches_of xs)
        × (y ≡ batches_of ys)
        × (xs ++ ys ≡ bs)
  joined_parts (batches_of xs) (batches_of ys) bs h = (xs, ys, refl, refl, inj h)
    where
      inj : batches_of (xs ++ ys) ≡ batches_of bs → xs ++ ys ≡ bs
      inj e = cc
  joined_parts (batches_of xs) (failed e) bs h = cc
  joined_parts (failed e) y bs h = cc

  joined-Serialized :
      (x y : Batched) (points : List A) (n : ℕ) (bs : List Bytes)
      → ((cs : List Bytes) → x ≡ batches_of cs → Serialized (take n points) cs)
      → ((cs : List Bytes) → y ≡ batches_of cs → Serialized (drop n points) cs)
      → joined x y ≡ batches_of bs
      → Serialized points bs
  joined-Serialized x y points n bs f g h =
      let (xs, ys, ex, ey, e) = joined_parts x y bs h in
      subst (λ z. Serialized z bs) (take-append-drop n points)
        (subst (λ z. Serialized (take n points ++ drop n points) z) e
          (Serialized-append (take n points) (drop n points) xs ys (f xs ex) (g ys ey)))

  sized_cases :
      (raw : Bytes) (points : List A) (halves : Batched) (bs : List Bytes)
      → sized marshal max_points max_bytes raw points halves ≡ batches_of bs
      → (halves ≡ batches_of bs) ⊎ ((length raw ≤ max_bytes) × (bs ≡ raw ∷ []))
  unfolding sized
  sized_cases raw points halves bs h =
      go (ltb max_bytes (length raw)) (leb (length points) 1) refl h
    where
      single : batches_of (raw ∷ []) ≡ batches_of bs → bs ≡ raw ∷ []
      single e = cc

      within : ltb max_bytes (length raw) ≡ false → length raw ≤ max_bytes
      within e = ground arith

      go :
          (big one : Bool)
          → ltb max_bytes (length raw) ≡ big
          → (if big
              then (if one then failed point_too_large else halves)
              else batches_of (raw ∷ []))
            ≡ batches_of bs
          → (halves ≡ batches_of bs) ⊎ ((length raw ≤ max_bytes) × (bs ≡ raw ∷ []))
      go true true e k = cc
      go true false e k = inl k
      go false one e k = inr (within e, single k)

  alone :
      (points : List A) (raw : Bytes)
      → marshal points ≡ some raw
      → length raw ≤ max_bytes
      → Serialized points (raw ∷ [])
  alone points raw m l =
      subst (λ z. Serialized z (raw ∷ [])) (append_nil points) (part points raw m l nothing)

  encode-Serialized :
      (fuel : ℕ) (points : List A) (bs : List Bytes)
      → encode marshal max_points max_bytes fuel points ≡ batches_of bs
      → Serialized points bs
  unfolding encode
  encode-Serialized zero points bs h = cc
  encode-Serialized (suc fuel) points bs h =
      go (encode-Serialized fuel (take (length points / 2) points))
        (encode-Serialized fuel (drop (length points / 2) points)) (marshal points) refl h
    where
      middle : ℕ
      middle = length points / 2

      halves : Batched
      halves =
          joined (encode marshal max_points max_bytes fuel (take middle points))
            (encode marshal max_points max_bytes fuel (drop middle points))

      go :
          ((cs : List Bytes)
            → encode marshal max_points max_bytes fuel (take middle points) ≡ batches_of cs
            → Serialized (take middle points) cs)
          → ((cs : List Bytes)
              → encode marshal max_points max_bytes fuel (drop middle points) ≡ batches_of cs
              → Serialized (drop middle points) cs)
          → (o : Option Bytes) → marshal points ≡ o
          → encoded marshal max_points max_bytes o points halves ≡ batches_of bs
          → Serialized points bs
      go f g none e k = unfold encoded in cc
      go f g (some raw) e k = elim (sized_cases raw points halves bs (unfold encoded in k)) [
        | inr (l, x) ↦ subst (λ z. Serialized points z) (sym x) (alone points raw e l)
        | inl x ↦
            joined-Serialized (encode marshal max_points max_bytes fuel (take middle points))
              (encode marshal max_points max_bytes fuel (drop middle points)) points middle bs f g x
      ]

  batch_from-Serialized :
      (fuel : ℕ) (points : List A) (bs : List Bytes)
      → 0 < max_points
      → batch_from marshal max_points max_bytes fuel points ≡ batches_of bs
      → Serialized points bs
  unfolding batch_from
  batch_from-Serialized zero points bs p h = cc
  batch_from-Serialized (suc fuel) [] bs p h = subst (λ z. Serialized [] z) (same h) nothing
    where
      same : batches_of [] ≡ batches_of bs → [] ≡ bs
      same e = cc
  batch_from-Serialized (suc fuel) (x ∷ points) bs p h =
      let all = x ∷ points in
      let some_part = take max_points all in
      joined-Serialized (encode marshal max_points max_bytes (length some_part + 1) some_part)
        (batch_from marshal max_points max_bytes fuel (drop max_points all)) all max_points bs
        (encode-Serialized (length some_part + 1) some_part)
        (λ cs e. batch_from-Serialized fuel (drop max_points all) cs p e) h

  -- If Batches returns batches, they serialize consecutive parts of the measurements that together
  -- are all of them, in order, and none is above the byte limit.
  pub batches-Serialized :
      (points : List A) (bs : List Bytes)
      → batches marshal max_points max_bytes points ≡ batches_of bs
      → Serialized points bs
  unfolding batches
  batches-Serialized points bs h =
      go (Bool-cases (max_points == 0))
        (Bool-cases (max_points == 0 || ltb 1000 max_points || ltb max_bytes 1024))
    where
      go :
          ((max_points == 0) ≡ true) ⊎ ((max_points == 0) ≡ false)
          → ((max_points == 0 || ltb 1000 max_points || ltb max_bytes 1024) ≡ true)
            ⊎ ((max_points == 0 || ltb 1000 max_points || ltb max_bytes 1024) ≡ false)
          → Serialized points bs
      go _ (inl e) = cc (rw e at h)
      go (inl z) (inr e) = absurd (zero_refused z e)
        where
          zero_refused :
              (max_points == 0) ≡ true
              → (max_points == 0 || ltb 1000 max_points || ltb max_bytes 1024) ≡ false
              → ⊥
          zero_refused y k = cc (rw y at k)
      go (inr z) (inr e) =
          batch_from-Serialized (length points + 1) points bs (nonzero z) (rw e at h)
        where
          nonzero : (max_points == 0) ≡ false → 0 < max_points
          nonzero y = ground arith
