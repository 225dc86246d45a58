-- ===== src/Queue/Disk/Reopened.antt =====
-- internal/queue/disk_linux.go, `openDisk`: a stored record stays, and the opened spool lists it.
use observe_agent.Base.{
  ℕ, ◌+◌, ◌≡◌, refl, sym, ap, ◌∙◌, inl, inr, Bool, true, false, not, ◌||◌, Option, none, some, List,
  [], ◌∷◌, arith, str_eq, ltb, leb, ◌==◌, if◌then◌else◌, Bool-cases, length, Bytes,
}
use observe_agent.Queue.Files.{
  Name, control, rec, bad, pending, File, Files, Dir, Faults, Io, ok, err, crashed, conflict, M,
  ◌>>=◌, got, give, raise, perform, unchanged, name_eq,
}
use observe_agent.Queue.Files.Laws.{control-rec, bad-rec, name_eq→≡}
use observe_agent.Queue.Files.Logic.{Assertion, Ensures, Triple, Triple-bind, Triple-weaken}
use observe_agent.Queue.Files.Steps.{Has, lose-durable, outcome-Ensures}
use observe_agent.Queue.Files.Keeps.{Keeps, look-Keeps, remove-Keeps, rename-Keeps}
use observe_agent.Queue.Disk.Listing.{
  lists_record, is_record, lists_record-is_record, holds_name-sort_names, holds_name-append,
}
use observe_agent.Queue.Codec.{Codec}
use observe_agent.Queue.Disk.{Disk, decode, max_record}
use observe_agent.Queue.Disk.Open.{
  Found, index_record, scan_pending, scan_entry, scan, opened, open_disk, list_entries, counted,
  start, is_control, is_upgrade, holds_only_lock, bounded,
}
use observe_agent.Queue.Logs.Names.{holds_name}
use observe_agent.Queue.Logs.Looked.{Read, read-Triple}
use observe_agent.Queue.Migration.{Manifest, ScopeUpgrade, ControlCodec}
use observe_agent.Queue.Migration.Retained.{load_manifest-Stays}

Triple-fact :
    {A : Type 0} {P : Assertion} {X : Type 0} {Q : A → Assertion} {E C : Assertion} {m : M A}
    → (X → Triple P m Q E C)
    → Triple (λ d. P d × X) m Q E C
Triple-fact t = record { at = λ d h. (t h.1).at d h.0 }

module _ (c : Codec) (k : ControlCodec) (env : Faults) (n : ℕ) (f : File) (p : Bytes)
    (synced : f.synced ≡ true) (decodes : decode c f.contents ≡ some p) where
  abbrev Here : Assertion
  Here = Has (rec n) (some f)

  -- The operation keeps the record, and what it gives holds.
  abbrev HereWith : {A : Type 0} → M A → (A → Type 0) → Type 0
  HereWith m Q = Triple Here m (λ a d. Here d × Q a) Here Here

  -- The scan has listed the record, if it stands among these entries or was listed before.
  abbrev Listed : Bool → Found → Found → Type 0
  Listed b x y = (holds_name n x.names || b) ≡ true → holds_name n y.names ≡ true

  with_fact :
      {A : Type 0} {m : M A} {Q : A → Type 0} → Keeps Here m → ((a : A) → Q a) → HereWith m Q
  with_fact {Q = Q} t q =
      Triple-weaken (λ _. Here) (λ a d. Here d × Q a) Here Here Here Here (λ d h. h)
        (λ a d h. (h, q a)) (λ d h. h) (λ d h. h) t

  give_with : {A : Type 0} {Q : A → Type 0} (a : A) → Q a → HereWith (give a) Q
  give_with a q = record { at = λ d h. (h, q) }

  bind_with :
      {A B : Type 0} {m : M A} {g : A → M B} {Q : A → Type 0} {R : B → Type 0}
      → HereWith m Q
      → ((a : A) → Q a → HereWith (g a) R)
      → HereWith (m >>= g) R
  bind_with {Q = Q} t u = Triple-bind (λ a d. Here d × Q a) t (λ a. Triple-fact (λ q. u a q))

  raise_with : {A : Type 0} (Q : A → Type 0) → HereWith (raise conflict) Q
  raise_with Q = record { at = λ d h. h }

  if_with :
      {A : Type 0} {Q : A → Type 0} (b : Bool) {m o : M A}
      → HereWith m Q
      → HereWith o Q
      → HereWith (if b then m else o) Q
  if_with true t u = t
  if_with false t u = u

  look : {A : Type 0} (result : Files → Io A) → Keeps Here (perform env result unchanged unchanged)
  look result = look-Keeps env (rec n) (some f) synced result

  scan_pending-Here : (b : Bool) (x : Found) → HereWith (scan_pending c k env b x) (Listed false x)
  unfolding scan_pending
  scan_pending-Here b x = if_with b (raise_with (Listed false x)) (
      bind_with {Q = λ _. Unit {0}} (with_fact (look _) (λ _. tt)) (λ raw _.
        bind_with {Q = λ _. Unit {0}}
          (with_fact (remove-Keeps env (rec n) (some f) synced pending (control-rec ".pending" n))
            (λ _. tt))
          (λ _ _. give_with x (λ h. ground arith))))

  -- A record that does not decode is another one.
  apart :
      {m : ℕ} {raw : Bytes} (d : Dir)
      → Here d × Read (rec m) (got raw) d
      → decode c raw ≡ none
      → name_eq (rec m) (rec n) ≡ false
  apart {m} {raw} d (here, (g, found, same)) e = elim (Bool-cases (name_eq (rec m) (rec n))) [
    | inl t ↦
        let one : some g ≡ some f = sym found ∙ ap d.files (name_eq→≡ (rec m) (rec n) t) ∙ here in
        ground (arith, decodes)
    | inr t ↦ t
  ]

  not_this :
      (m : ℕ) (x : Found)
      → name_eq (rec m) (rec n) ≡ false
      → (holds_name n x.names || m == n) ≡ true
      → holds_name n x.names ≡ true
  unfolding name_eq
  not_this m x e t = ground arith

  -- Only a record that does not decode is quarantined.
  index_record-Here :
      (m : ℕ) (raw : Bytes) (x : Found)
      → Triple
          (λ d. Here d × Read (rec m) (got raw) d)
          (index_record c k env m x (decode c raw))
          (λ y d. Here d × Listed (m == n) x y)
          Here
          Here
  unfolding index_record
  index_record-Here m raw x = go (decode c raw) refl
    where
      go :
          (o : Option Bytes)
          → decode c raw ≡ o
          → Triple
              (λ d. Here d × Read (rec m) (got raw) d)
              (index_record c k env m x o)
              (λ y d. Here d × Listed (m == n) x y)
              Here
              Here
      go none e = record {
        at = λ d h.
            let other = apart d h e in
            (bind_with {Q = λ _. Unit {0}}
                (with_fact
                  (rename-Keeps env (rec n) (some f) synced (rec m) other (bad m) (bad-rec m n))
                  (λ _. tt))
                (λ _ _.
                  bind_with {Q = λ _. Unit {0}} (with_fact (look (λ _. ok tt)) (λ _. tt))
                    (λ _ _. give_with _ (λ t. not_this m x other t)))).at
              d h.0;
      }
      go (some q) e = record { at = λ d h. (h.0, λ t. rw (holds_name-append n m x.names) t) }

  scan_entry-Here :
      (b : Bool) (next : ℕ) (m : Name) (x : Found)
      → HereWith (scan_entry c k env b next m x) (Listed (is_record n m) x)
  unfolding scan_entry
  scan_entry-Here b next (control s) x =
      if_with (is_control s) (give_with x (λ h. ground arith))
        (if_with (str_eq s ".pending") (scan_pending-Here b x) (raise_with (Listed false x)))
  scan_entry-Here b next (rec m) x =
      if_with (m == 0 || leb next m) (raise_with (Listed (m == n) x)) (
        Triple-bind (λ raw d. Here d × Read (rec m) (got raw) d)
          (read-Triple env Here (rec m) max_record (look _))
          (λ raw. index_record-Here m raw (counted (length raw) x)))
  scan_entry-Here b next (bad m) x = if_with (m == 0 || leb next m) (raise_with (Listed false x)) (
      bind_with {Q = λ _. Unit {0}} (with_fact (look _) (λ _. tt))
        (λ raw _. give_with _ (λ h. ground arith)))

  scan-Here :
      (b : Bool) (next : ℕ) (ns : List Name) (x : Found)
      → HereWith (scan c k env b next ns x) (Listed (lists_record n ns) x)
  unfolding scan
  scan-Here b next [] x = give_with x (λ h. ground arith)
  scan-Here b next (m ∷ ns) x = bind_with (scan_entry-Here b next m x) (λ y listed.
      Triple-weaken (λ z d. Here d × Listed (lists_record n ns) y z)
        (λ z d. Here d × Listed (lists_record n (m ∷ ns)) x z) Here Here Here Here (λ d h. h)
        (λ z d h. (h.0, λ t. h.1 (later y listed (rw (lists_record-is_record n m ns) at t))))
        (λ d h. h) (λ d h. h) (scan-Here b next ns y))
    where
      later :
          (y : Found)
          → Listed (is_record n m) x y
          → (holds_name n x.names || (is_record n m || lists_record n ns)) ≡ true
          → (holds_name n y.names || lists_record n ns) ≡ true
      later y listed t = ground arith

  opened-Here :
      (m : Manifest) (max_bytes max_items : ℕ) (x : Found)
      → holds_name n x.names ≡ true
      → HereWith (opened c k env m max_bytes max_items x) (λ q. holds_name n q.names ≡ true)
  unfolding opened
  opened-Here m max_bytes max_items x listed =
      if_with (ltb max_bytes x.bytes || ltb max_items x.count)
        (raise_with (λ q. holds_name n q.names ≡ true))
        (bind_with {Q = λ _. Unit {0}} (with_fact (look (λ _. ok tt)) (λ _. tt))
          (λ _ _. record { at = λ d h. (h, holds_name-sort_names n x.names ∙ listed) }))

  module _ (listing : Files → List Name)
      (lists : (fs : Files) → fs (rec n) ≡ some f → lists_record n (listing fs) ≡ true) where
    list_entries-Here : HereWith (list_entries c k env listing) (λ ns. lists_record n ns ≡ true)
    list_entries-Here = record {
      at = λ d h.
          outcome-Ensures (env.fault d.ticks) (env.cut d.ticks) (λ fs. bounded (listing fs))
            unchanged unchanged d (λ ns e. Here e × (lists_record n ns ≡ true)) Here Here
            (entries_of (ltb 4096 (length (listing d.files))) d.files (d.ticks + 1) h) h
            (lose-durable (env.cut d.ticks) d.files (rec n) (some f) synced h);
    }
      where
        entries_of :
            (b : Bool) (fs : Files) (t : ℕ)
            → fs (rec n) ≡ some f
            → Ensures
                (λ ns e. Here e × (lists_record n ns ≡ true))
                Here
                Here
                (if b then err conflict else ok (listing fs))
                (record { files = fs; ticks = t })
        entries_of true fs t h = h
        entries_of false fs t h = (h, lists fs h)

    open_disk-Here :
        (prepared : Bool) (digest : Bytes → Bytes) (scope : Bytes) (max_bytes max_items : ℕ)
        (u : Option ScopeUpgrade)
        → HereWith
            (open_disk c k env listing prepared digest scope max_bytes max_items u)
            (λ q. holds_name n q.names ≡ true)
    unfolding open_disk
    open_disk-Here prepared digest scope max_bytes max_items u =
        if_with
          (length scope == 0
            || ltb max_bytes 32768
            || ltb max_items 1
            || ltb 1024 max_items
            || not prepared)
          (raise_with (λ q. holds_name n q.names ≡ true))
          (bind_with list_entries-Here (λ entries _.
            bind_with {Q = λ _. Unit {0}}
              (with_fact
                (load_manifest-Stays c k env n (some f) synced (holds_only_lock entries)
                  (digest scope) u)
                (λ _. tt))
              (λ m _. bind_with list_entries-Here (λ again all.
                bind_with (scan-Here (is_upgrade u) m.next again (start (is_upgrade u) max_items))
                  (λ x listed. opened-Here m max_bytes max_items x (listed all))))))

-- If a record is stored in a synced file, and a listing of the directory has every file of that
-- record, then on every outcome of `openDisk`, each error and a crash included, the migration too,
-- the file of the record is as it was; and if the opening returns a spool, the record is among
-- those it will deliver.
pub open_disk-keeps :
    (c : Codec) (k : ControlCodec) (env : Faults) (listing : Files → List Name) (prepared : Bool)
    (digest : Bytes → Bytes) (scope : Bytes) (max_bytes max_items : ℕ) (u : Option ScopeUpgrade)
    (d : Dir) (n : ℕ) (f : File) (p : Bytes)
    → d.files (rec n) ≡ some f
    → f.synced ≡ true
    → decode c f.contents ≡ some p
    → ((fs : Files) → fs (rec n) ≡ some f → lists_record n (listing fs) ≡ true)
    → ((open_disk c k env listing prepared digest scope max_bytes max_items u d).1.files (rec n)
        ≡ some f)
      × ((q : Disk)
          → (open_disk c k env listing prepared digest scope max_bytes max_items u d).0 ≡ ok q
          → holds_name n q.names ≡ true)
open_disk-keeps c k env listing prepared digest scope max_bytes max_items u d n f p here synced
      decodes lists =
    result (open_disk c k env listing prepared digest scope max_bytes max_items u d).0
      (open_disk c k env listing prepared digest scope max_bytes max_items u d).1
      ((open_disk-Here c k env n f p synced decodes listing lists prepared digest scope max_bytes
          max_items u).at
        d here)
  where
    result :
        (r : Io Disk) (d' : Dir)
        → Ensures
            (λ q e. (e.files (rec n) ≡ some f) × (holds_name n q.names ≡ true))
            (Has (rec n) (some f))
            (Has (rec n) (some f))
            r
            d'
        → (d'.files (rec n) ≡ some f) × ((q : Disk) → r ≡ ok q → holds_name n q.names ≡ true)
    result (ok x) d' h =
        (h.0, λ q e. let same : x ≡ q = cc in ap (λ y. holds_name n y.names) (sym same) ∙ h.1)
    result (err x) d' h = (h, λ q e. cc)
    result crashed d' h = (h, λ q e. cc)
