-- ===== src/Fleet/Store.antt =====
-- internal/fleet/fleet.go: the local store of the policy, on one state file.
-- encoding/json is a parameter, and so is whether a read and a replacement succeed.
use observe_agent.Base.{
  ◌≡◌, Bool, true, false, Option, none, some, ltb, if◌then◌else◌, length, Bytes,
}
use observe_agent.Policy
use observe_agent.Policy.{Document, validate}
use observe_agent.Fleet.{max_policy_bytes}

pub record Format : Type 0 where
  pub marshal : Document → Option Bytes
  pub unmarshal : Bytes → Option Document

-- `LocalStore` with its file; `none` is a file that is not there.
pub record LocalStore : Type 0 where
  pub has_files : Bool
  pub file : Option Bytes

pub data StoreError : Type 0 where
  unavailable not_encoded not_replaced not_read too_large not_decoded : StoreError
  invalid : Policy.Invalid → StoreError

pub data Loaded : Type 0 where
  document : Document → Loaded
  refused : StoreError → Loaded

module _ (j : Format) where
  unfoldable pub replace : Bool → Option Bytes → LocalStore → Option StoreError × LocalStore
  replace replaces none s = (some not_encoded, s)
  replace true (some b) s = (none, record s { file = some b })
  replace false (some b) s = (some not_replaced, s)

  -- `Save`
  unfoldable pub save : Bool → Document → LocalStore → Option StoreError × LocalStore
  save replaces p s =
      let rest = replace replaces (j.marshal p) s in
      if s.has_files
      then elim (validate p) [ some e ↦ (some (invalid e), s) | none ↦ rest ]
      else (some unavailable, s)

  -- `Load` from the bytes on. The source returns an invalid document beside its error.
  unfoldable pub checked : Option Document → Loaded
  checked none = refused not_decoded
  checked (some p) = elim (validate p) [ some e ↦ refused (invalid e) | none ↦ document p ]

  unfoldable pub decoded : Option Bytes → Loaded
  decoded none = refused not_read
  decoded (some raw) =
      if ltb max_policy_bytes (length raw) then refused too_large else checked (j.unmarshal raw)

  -- `Load`
  unfoldable pub load : Bool → LocalStore → Loaded
  load reads s =
      if s.has_files
      then (if reads then decoded s.file else refused not_read)
      else refused unavailable

  -- What `Load` gives behind a `Save`.
  pub record Stored (p : Document) (s : LocalStore) (r : Option StoreError × LocalStore)
      : Type 0 where
    pub saved : r.0 ≡ none → load true r.1 ≡ document p
    pub kept : (e : StoreError) (reads : Bool) → r.0 ≡ some e → load reads r.1 ≡ load reads s
    pub valid : (d : Document) (reads : Bool) → load reads r.1 ≡ document d → validate d ≡ none
