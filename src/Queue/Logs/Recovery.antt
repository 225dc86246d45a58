-- ===== src/Queue/Logs/Recovery.antt =====
-- internal/queue/logs_disk_linux.go: the opening keeps every record that was stored.
use observe_agent.Base.{
  ℕ, ◌+◌, ◌-◌, ◌≡◌, refl, sym, ap, ◌∙◌, ◌⊎◌, inl, inr, Bool, true, false, ◌&&◌, Option, none, some,
  List, [], ◌∷◌, ◌++◌, arith, leb, if◌then◌else◌, Bool-cases, length, Bytes, bytes_eq,
}
use observe_agent.Queue.Files.{
  Name, control, rec, bad, pending, File, Dir, Faults, ok, conflict, M, ◌>>=◌, Answer, got, refused,
  ask, give, raise, sync_dir, rename, remove, read, name_eq,
}
use observe_agent.Queue.Files.Laws.{control-rec, bad-rec, name_eq→≡}
use observe_agent.Queue.Files.Logic.{Assertion, Triple, Triple-bind}
use observe_agent.Queue.Files.Steps.{IsDurable, Has}
use observe_agent.Queue.Files.Keeps.{
  Keeps-pre, Keeps, Keeps-bind, Keeps-ask, Keeps-give, Keeps-raise, Keeps-if, Keeps-both, Both,
  remove-Keeps,
}
use observe_agent.Queue.Logs.{find_admission, charge, replace_pending}
use observe_agent.Queue.Logs.Record.{LogRecord, LogCodec, decode, max_record}
use observe_agent.Queue.Logs.Open.{
  is_missing, place_record, pending_record, recover_record, index_record, scan_entry, scan, Index,
  same_content, is_passed,
}
use observe_agent.Queue.Logs.Looked.{Read, ask-read-Triple, read-Triple, look-Here, rename-Here}

module _ (c : LogCodec) (env : Faults) (k : ℕ) (f : File) (r : LogRecord) (o : Option File)
    (synced : f.synced ≡ true) (durable : IsDurable o)
    (decodes : decode c f.contents ≡ some r) where
  abbrev Here : Assertion
  Here = Both (Has (rec k) (some f)) (Has replace_pending o)

  -- Another name than `rec k`, since it is free or holds something else.
  apart :
      (n : ℕ) (d : Dir) → Here d → (d.files (rec n) ≡ some f → ⊥) → name_eq (rec n) (rec k) ≡ false
  apart n d h other = go (Bool-cases (name_eq (rec n) (rec k)))
    where
      go :
          (name_eq (rec n) (rec k) ≡ true) ⊎ (name_eq (rec n) (rec k) ≡ false)
          → name_eq (rec n) (rec k) ≡ false
      go (inl e) = absurd (other (ap d.files (name_eq→≡ (rec n) (rec k) e) ∙ h.0))
      go (inr e) = e

  -- A record is moved to its name only if that name is free.
  place_record-Here :
      (n : ℕ) (p : LogRecord) (a : Answer Bytes)
      → Triple (λ d. Here d × Read (rec n) a d) (place_record c env n p a) (λ _. Here) Here Here
  unfolding place_record
  place_record-Here n p (refused e) = go (is_missing e) refl
    where
      go :
          (b : Bool)
          → is_missing e ≡ b
          → Triple
              (λ d. Here d × Read (rec n) (refused e) d)
              (if b then (rename env pending (rec n) >>= λ _. sync_dir env) else raise e)
              (λ _. Here)
              Here
              Here
      go true m = record {
        at = λ d h.
            let other = apart n d h.0 (λ x. cc (h.1 m)) in
            (Keeps-bind Here
                (rename-Here c env k f r o synced durable decodes pending (rec n)
                  (control-rec ".pending" k) other (unfold name_eq in refl)
                  (unfold name_eq in refl))
                (λ _. look-Here c env k f r o synced durable decodes (λ _. ok tt))).at
              d h.0;
      }
      go false m = record { at = λ d h. h.0 }
  place_record-Here n p (got raw) = Keeps-pre Here (Read (rec n) (got raw)) (go (decode c raw))
    where
      go :
          (m : Option LogRecord)
          → Keeps Here (elim m as (λ _. M (Unit {0})) [
            | none ↦ raise conflict
            | some t ↦
                if bytes_eq t.admission_id p.admission_id && same_content t p
                then (remove env pending >>= λ _. sync_dir env)
                else raise conflict
          ])
      go none = Keeps-raise Here conflict
      go (some t) =
          Keeps-if Here (bytes_eq t.admission_id p.admission_id && same_content t p)
            (Keeps-bind Here
              (Keeps-both (Has (rec k) (some f)) (Has replace_pending o)
                (remove-Keeps env (rec k) (some f) synced pending (control-rec ".pending" k))
                (remove-Keeps env replace_pending o durable pending (unfold name_eq in refl)))
              (λ _. look-Here c env k f r o synced durable decodes (λ _. ok tt)))
            (Keeps-raise Here conflict)

  pending_record-Here : (next : ℕ) (a : Answer Bytes) → Keeps Here (pending_record c env next a)
  unfolding pending_record
  pending_record-Here next (refused e) =
      Keeps-if Here (is_missing e) (Keeps-give Here tt) (Keeps-raise Here e)
  pending_record-Here next (got raw) = go (decode c raw)
    where
      go :
          (m : Option LogRecord)
          → Keeps Here (elim m as (λ _. M (Unit {0})) [
            | none ↦ raise conflict
            | some p ↦
                if leb next 1
                then raise conflict
                else ask (read env (rec (next - 1)) max_record) >>= place_record c env (next - 1) p
          ])
      go none = Keeps-raise Here conflict
      go (some p) = Keeps-if Here (leb next 1) (Keeps-raise Here conflict) (
          Triple-bind (λ a d. Here d × Read (rec (next - 1)) a d)
            (ask-read-Triple env Here (rec (next - 1)) max_record
              (look-Here c env k f r o synced durable decodes _))
            (λ a. place_record-Here (next - 1) p a))

  pub recover_record-Here : (next : ℕ) → Keeps Here (recover_record c env next)
  unfolding recover_record
  recover_record-Here next =
      Keeps-bind Here (Keeps-ask Here (look-Here c env k f r o synced durable decodes _))
        (λ a. pending_record-Here next a)

  -- A record is quarantined only if it does not decode.
  index_record-Here :
      (n : ℕ) (raw : Bytes) (x : Index)
      → Triple
          (λ d. Here d × Read (rec n) (got raw) d)
          (index_record c env n (length raw) x (decode c raw))
          (λ _. Here)
          Here
          Here
  unfolding index_record
  index_record-Here n raw x = go (decode c raw) refl
    where
      go :
          (m : Option LogRecord)
          → decode c raw ≡ m
          → Triple
              (λ d. Here d × Read (rec n) (got raw) d)
              (index_record c env n (length raw) x m)
              (λ _. Here)
              Here
              Here
      go none e = record {
        at = λ d h.
            let (g, found, same) = h.1 in
            let other = apart n d h.0 (λ y. clash g d found same e y) in
            (Keeps-bind Here
                (rename-Here c env k f r o synced durable decodes (rec n) (bad n) other
                  (bad-rec n k) (unfold name_eq in refl) (unfold name_eq in refl))
                (λ _.
                  Keeps-bind Here (look-Here c env k f r o synced durable decodes (λ _. ok tt))
                    (λ _. Keeps-give Here _))).at
              d h.0;
      }
        where
          clash :
              (g : File) (d : Dir)
              → d.files (rec n) ≡ some g
              → g.contents ≡ raw
              → decode c raw ≡ none
              → d.files (rec n) ≡ some f
              → ⊥
          clash g d found same e y =
              let one : some g ≡ some f = sym found ∙ y in ground (arith, decodes)
      go (some s) e =
          Keeps-pre Here (Read (rec n) (got raw))
            (known (find_admission s.admission_id x.admissions))
        where
          known :
              (a : Option ℕ)
              → Keeps Here (elim a as (λ _. M Index) [
                | some _ ↦ raise conflict
                | none ↦ give (record x {
                  names = if s.ready then x.names ++ (n ∷ []) else x.names;
                  admissions = x.admissions ++ ((s.admission_id, n) ∷ []);
                  bytes = x.bytes + charge (length raw);
                  count = x.count + 1;
                })
              ])
          known (some y) = Keeps-raise Here conflict
          known none = Keeps-give Here _

  scan_entry-Here : (n : Name) (x : Index) → Keeps Here (scan_entry c env n x)
  unfolding scan_entry
  scan_entry-Here (control s) x =
      Keeps-if Here (is_passed s) (Keeps-give Here x) (Keeps-raise Here conflict)
  scan_entry-Here (bad n) x = Keeps-give Here x
  scan_entry-Here (rec n) x =
      Triple-bind (λ raw d. Here d × Read (rec n) (got raw) d)
        (read-Triple env Here (rec n) max_record (look-Here c env k f r o synced durable decodes _))
        (λ raw. index_record-Here n raw x)

  pub scan-Here : (ns : List Name) (x : Index) → Keeps Here (scan c env ns x)
  unfolding scan
  scan-Here [] x = Keeps-give Here x
  scan-Here (n ∷ ns) x = Keeps-bind Here (scan_entry-Here n x) (λ y. scan-Here ns y)
