-- ===== src/Queue/Logs/Names.antt =====
-- internal/queue/logs_disk_linux.go: the names and the admissions of the logs spool, as lists.
use observe_agent.Base.{
  ℕ, Bool, false, ◌||◌, Option, none, some, List, [], ◌∷◌, leb, ◌==◌, if◌then◌else◌, Bytes,
  bytes_eq,
}

-- sort.Strings; names of sequence numbers sort as the numbers do.
abbrev pub insert_name : ℕ → List ℕ → List ℕ
insert_name n [] = n ∷ []
insert_name n (m ∷ ms) = if leb n m then n ∷ m ∷ ms else m ∷ insert_name n ms

abbrev pub sort_names : List ℕ → List ℕ
sort_names [] = []
sort_names (n ∷ ns) = insert_name n (sort_names ns)

abbrev pub holds_name : ℕ → List ℕ → Bool
holds_name n [] = false
holds_name n (m ∷ ms) = m == n || holds_name n ms

-- q.admissions[id]; identifiers are byte sequences.
abbrev pub find_admission : Bytes → List (Bytes × ℕ) → Option ℕ
find_admission id [] = none
find_admission id ((j, n) ∷ m) = if bytes_eq j id then some n else find_admission id m

-- delete(q.admissions, id)
abbrev pub forget : Bytes → List (Bytes × ℕ) → List (Bytes × ℕ)
forget id [] = []
forget id ((j, n) ∷ m) = let rest = forget id m in if bytes_eq j id then rest else (j, n) ∷ rest

-- The loop that deletes the admission of a name.
abbrev pub forget_name : ℕ → List (Bytes × ℕ) → List (Bytes × ℕ)
forget_name n [] = []
forget_name n ((j, k) ∷ m) = let rest = forget_name n m in if k == n then m else (j, k) ∷ rest
