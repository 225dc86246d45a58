-- ===== src/Queue/Disk/Listing.antt =====
-- internal/queue/disk_linux.go: which records the entries of a directory and the sorted names hold.
use observe_agent.Base.{
  ℕ, ◌≡◌, refl, ap, ◌∙◌, Bool, true, false, ◌||◌, List, [], ◌∷◌, ◌++◌, arith, leb, ◌==◌,
  if◌then◌else◌,
}
use observe_agent.Queue.Files.{Name, control, rec, bad}
use observe_agent.Queue.Logs.Names.{sort_names, insert_name, holds_name}

-- The entries of a directory have the record `n`.
abbrev pub lists_record : ℕ → List Name → Bool
lists_record n [] = false
lists_record n (rec m ∷ ns) = m == n || lists_record n ns
lists_record n (control s ∷ ns) = lists_record n ns
lists_record n (bad m ∷ ns) = lists_record n ns

abbrev pub is_record : ℕ → Name → Bool
is_record n (rec m) = m == n
is_record n (control s) = false
is_record n (bad m) = false

pub lists_record-is_record :
    (n : ℕ) (x : Name) (ns : List Name)
    → lists_record n (x ∷ ns) ≡ (is_record n x || lists_record n ns)
lists_record-is_record n (rec m) ns = refl
lists_record-is_record n (control s) ns = refl
lists_record-is_record n (bad m) ns = refl

holds_name-insert_name :
    (n m : ℕ) (ns : List ℕ) → holds_name n (insert_name m ns) ≡ (m == n || holds_name n ns)
holds_name-insert_name n m [] = refl
holds_name-insert_name n m (x ∷ xs) = go (leb m x) (holds_name-insert_name n m xs)
  where
    go :
        (b : Bool)
        → holds_name n (insert_name m xs) ≡ (m == n || holds_name n xs)
        → holds_name n (if b then m ∷ x ∷ xs else x ∷ insert_name m xs)
          ≡ (m == n || (x == n || holds_name n xs))
    go true h = refl
    go false h = ground arith

pub holds_name-sort_names : (n : ℕ) (ns : List ℕ) → holds_name n (sort_names ns) ≡ holds_name n ns
holds_name-sort_names n [] = refl
holds_name-sort_names n (m ∷ ns) =
    holds_name-insert_name n m (sort_names ns) ∙ ap (λ b. m == n || b) (holds_name-sort_names n ns)

pub holds_name-append :
    (n m : ℕ) (ns : List ℕ) → holds_name n (ns ++ (m ∷ [])) ≡ (holds_name n ns || m == n)
holds_name-append n m [] = ground arith
holds_name-append n m (x ∷ xs) = let h = holds_name-append n m xs in ground arith
