-- ===== src/Logtail/Line.antt =====
-- internal/logtail/tailer_linux.go: `readLine` and `bytesWithoutLineEnding`.
use observe_agent.Base.{
  ℕ, ◌+◌, ◌≤◌, ◌<◌, ◌≡◌, inl, inr, Bool, true, false, ◌||◌, [], ◌∷◌, ◌++◌, arith, leb, ◌==◌,
  if◌then◌else◌, Bool-cases, length, drop, Bytes,
}

-- What `readLine` returns: the bytes up to the limit, the offset behind, whether the line is
-- complete, and whether it was cut.
pub record Line : Type 0 where
  pub text : Bytes
  pub end : ℕ
  pub complete : Bool
  pub too_large : Bool

-- The loop over the bytes behind `place`.
unfoldable pub read_from : ℕ → Bytes → Bytes → ℕ → Bool → Line
read_from max [] out place cut = record {
  text = out;
  end = place;
  complete = false;
  too_large = cut;
}
read_from max (b ∷ rest) out place cut =
    let over = cut || leb max (length out) in
    let out' = if over then out else out ++ (b ∷ []) in
    let later = read_from max rest out' (place + 1) over in
    if b == 10
    then record { text = out'; end = place + 1; complete = true; too_large = over }
    else later

-- `readLine`
unfoldable pub read_line : Bytes → ℕ → ℕ → Line
read_line contents offset max = read_from max (drop offset contents) [] offset false

abbrev trim_last : ℕ → Bytes → Bytes
trim_last c [] = []
trim_last c (b ∷ []) = if b == c then [] else b ∷ []
trim_last c (b ∷ x ∷ rest) = b ∷ trim_last c (x ∷ rest)

-- `bytesWithoutLineEnding`
unfoldable pub without_line_ending : Bytes → Bytes
without_line_ending b = trim_last 13 (trim_last 10 b)

-- A complete line ends behind its beginning and within the file.
pub read_from-end :
    (max : ℕ) (rest out : Bytes) (place : ℕ) (cut : Bool)
    → (read_from max rest out place cut).complete ≡ true
    → (place < (read_from max rest out place cut).end)
      × ((read_from max rest out place cut).end ≤ place + length rest)
unfolding read_from
read_from-end max [] out place cut h = cc
read_from-end max (b ∷ rest) out place cut h =
    let over = cut || leb max (length out) in
    let out' = if over then out else out ++ (b ∷ []) in
    let later = read_from-end max rest out' (place + 1) over in
    elim (Bool-cases (b == 10)) [
      | inl e ↦ rw e (omega arith, omega arith)
      | inr e ↦ let l = later (rw e at h) in rw e (omega (arith, l), omega (arith, l))
    ]
