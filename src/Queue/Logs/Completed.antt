-- ===== src/Queue/Logs/Completed.antt =====
-- internal/queue/logs_disk_linux.go, `recoverPendingActivation`: what becomes of a stored record.
use observe_agent.Base.{
  bytes_eq→≡, ℕ, ◌≡◌, refl, sym, ap, ◌∙◌, subst, inl, inr, Bool, true, false, not, Option, none,
  some, [], ◌∷◌, ◌++◌, arith, if◌then◌else◌, Bool-cases, &&-parts, Bytes, bytes_eq,
}
use observe_agent.Queue.Files.{
  Name, rec, File, Dir, Faults, ok, conflict, M, ◌>>=◌, Answer, got, refused, give, raise,
  unchanged, sync_dir, rename, read, name_eq, moved, present,
}
use observe_agent.Queue.Files.Laws.{rec-rec, control-rec, name_eq→≡, name_eq_refl}
use observe_agent.Queue.Files.Logic.{Assertion, Ensures, Triple, Triple-bind, Triple-weaken}
use observe_agent.Queue.Files.Steps.{IsDurable, Has, lose-durable, outcome-Ensures}
use observe_agent.Queue.Files.Keeps.{
  Keeps, Keeps-bind, Keeps-give, Keeps-raise, Keeps-if, look-Keeps, rename-Keeps,
}
use observe_agent.Queue.Logs.{replace_pending}
use observe_agent.Queue.Logs.Names.{find_admission}
use observe_agent.Queue.Logs.Record.{LogRecord, LogCodec, decode, max_record}
use observe_agent.Queue.Logs.Open.{
  is_missing, finish_activation, pending_activation, recover_activation, Index, same_content,
}
use observe_agent.Queue.Logs.Looked.{Read, Here, look-Here, ask-read-Triple, read-Triple}

-- The record `k` is stored, synced, with this payload.
pub record Kept (c : LogCodec) (k : ℕ) (p : Bytes) (d : Dir) : Type 0 where
  pub file : File
  pub found : d.files (rec k) ≡ some file
  pub durable : file.synced ≡ true
  pub stored : LogRecord
  pub decodes : decode c file.contents ≡ some stored
  pub payload : stored.payload ≡ p

-- A rename over a file that is there.
renamed-Triple :
    (env : Faults) (a b : Name) (f g : File)
    → f.synced ≡ true
    → Triple
        (λ d. (d.files a ≡ some g) × (d.files b ≡ some f))
        (rename env a b)
        (λ _. Has b (some g))
        (Has b (some f))
        (Has b (some f))
renamed-Triple env a b f g synced = record {
  at = λ d h.
      outcome-Ensures (env.fault d.ticks) (env.cut d.ticks) (λ fs. present (fs a))
        (λ fs. moved a b (fs a) fs) unchanged d (λ _. Has b (some g)) (Has b (some f))
        (Has b (some f)) (rw (h.0, name_eq_refl)) h.1
        (lose-durable (env.cut d.ticks) d.files b (some f) synced h.1);
}

module _ (c : LogCodec) (env : Faults) (k : ℕ) (f : File) (r : LogRecord) (o : Option File)
    (synced : f.synced ≡ true) (durable : IsDurable o)
    (decodes : decode c f.contents ≡ some r) where
  abbrev pub Start : Assertion
  Start = Here c env k f r o synced durable decodes

  abbrev pub End : Assertion
  End = Kept c k r.payload

  old-Kept : (d : Dir) → d.files (rec k) ≡ some f → End d
  old-Kept d h = record {
    file = f;
    found = h;
    durable = synced;
    stored = r;
    decodes = decodes;
    payload = refl;
  }

  pub loose : {A : Type 0} {m : M A} → Keeps Start m → Triple Start m (λ _. Start) End End
  loose {m = m} t =
      Triple-weaken (λ _. Start) (λ _. Start) Start End Start End (λ d h. h) (λ a d h. h)
        (λ d h. old-Kept d h.0) (λ d h. old-Kept d h.0) t

  -- The pending version is `p`, which decodes.
  module _ (g : File) (og : o ≡ some g) (p : LogRecord) (gp : decode c g.contents ≡ some p) where
    new-Kept : (d : Dir) → d.files (rec k) ≡ some g → p.payload ≡ r.payload → End d
    new-Kept d h e = record {
      file = g;
      found = h;
      durable = rw og at durable;
      stored = p;
      decodes = gp;
      payload = e;
    }

    -- What follows the tests of `finish_activation`.
    abbrev install_ready : ℕ → Index → M Index
    install_ready n y = rename env replace_pending (rec n) >>= λ _. sync_dir env >>= λ _. give y

    other-Kept :
        (n : ℕ) (y : Index)
        → name_eq (rec n) (rec k) ≡ false
        → (d : Dir) → Start d
        → Ensures (λ _. End) End End (install_ready n y d).0 (install_ready n y d).1
    other-Kept n y ne d h =
        let S = Has (rec k) (some f) in
        (Triple-weaken (λ _. S) (λ _. End) S End S End (λ d' h'. h') (λ a d' h'. old-Kept d' h')
            (λ d' h'. old-Kept d' h') (λ d' h'. old-Kept d' h')
            (Keeps-bind S
              (rename-Keeps env (rec k) (some f) synced replace_pending
                (control-rec ".replace.pending" k) (rec n) ne)
              (λ _.
                Keeps-bind S (look-Keeps env (rec k) (some f) synced (λ _. ok tt))
                  (λ _. Keeps-give S y)))).at
          d h.0

    same-Kept :
        (y : Index)
        → p.payload ≡ r.payload
        → (d : Dir) → Start d
        → Ensures (λ _. End) End End (install_ready k y d).0 (install_ready k y d).1
    same-Kept y e d h =
        let S = Has (rec k) (some f) in
        let T = Has (rec k) (some g) in
        (Triple-bind (λ _. T)
            (Triple-weaken (λ _. T) (λ _. T) S End S End (λ d' h'. h') (λ a d' h'. h')
              (λ d' h'. old-Kept d' h') (λ d' h'. old-Kept d' h')
              (renamed-Triple env replace_pending (rec k) f g synced))
            (λ _.
              Triple-weaken (λ _. T) (λ _. End) T End T End (λ d' h'. h')
                (λ a d' h'. new-Kept d' h' e) (λ d' h'. new-Kept d' h' e)
                (λ d' h'. new-Kept d' h' e)
                (Keeps-bind T (look-Keeps env (rec k) (some g) (rw og at durable) (λ _. ok tt))
                  (λ _. Keeps-give T y)))).at
          d (h.1 ∙ og, h.0)

    -- The file of an admitted record is replaced only by the same payload, ready.
    finish_activation-Kept :
        (n : ℕ) (b : Bytes) (x : Index)
        → Triple
            (λ d. Start d × Read (rec n) (got b) d)
            (finish_activation c env n p x (decode c b))
            (λ _. End)
            End
            End
    unfolding finish_activation
    finish_activation-Kept n b x = record { at = λ d h. go d h (decode c b) refl }
      where
        same_payload :
            (d : Dir)
            → Start d × Read (rec n) (got b) d
            → (s : LogRecord) → decode c b ≡ some s
            → same_content s p ≡ true
            → name_eq (rec n) (rec k) ≡ true
            → p.payload ≡ r.payload
        same_payload d h s e t m =
            let (f', found, contents) = h.1 in
            let at_k : d.files (rec n) ≡ some f =
              ap d.files (name_eq→≡ (rec n) (rec k) m) ∙ h.0.0 in
            let one : some f' ≡ some f = sym found ∙ at_k in
            let parts = &&-parts (bytes_eq s.hash p.hash) (bytes_eq s.payload p.payload) t in
            let payloads = bytes_eq→≡ s.payload p.payload parts.1 in
            sym payloads ∙ payload_of s f' one contents e
          where
            payload_of :
                (s : LogRecord) (f' : File)
                → some f' ≡ some f
                → f'.contents ≡ b
                → decode c b ≡ some s
                → s.payload ≡ r.payload
            payload_of s f' one contents e = ground (arith, decodes)

        same_number : (j : ℕ) → name_eq (rec j) (rec k) ≡ true → j ≡ k
        same_number j m = let same = rw rec-rec at m in ground arith

        go :
            (d : Dir)
            → Start d × Read (rec n) (got b) d
            → (m : Option LogRecord) → decode c b ≡ m
            → Ensures
                (λ _. End)
                End
                End
                (finish_activation c env n p x m d).0
                (finish_activation c env n p x m d).1
        go d h none e = old-Kept d h.0.0
        go d h (some s) e = elim (Bool-cases (same_content s p)) [
          | inr t ↦ rw t (old-Kept d h.0.0)
          | inl t ↦
              let y = record x { names = if s.ready then x.names else x.names ++ (n ∷ []) } in
              elim (Bool-cases (name_eq (rec n) (rec k))) [
                | inr ne ↦ rw t (other-Kept n y ne d h.0)
                | inl m ↦ rw t (
                    subst
                      (λ (j : ℕ).
                        Ensures (λ _. End) End End (install_ready j y d).0 (install_ready j y d).1)
                      (sym (same_number n m)) (same-Kept y (same_payload d h s e t m) d h.0))
              ]
        ]

  pub keep_old : {A : Type 0} {m : M A} → Keeps Start m → Triple Start m (λ _. End) End End
  keep_old {m = m} t =
      Triple-weaken (λ _. Start) (λ _. End) Start End Start End (λ d h. h) (λ a d h. old-Kept d h.0)
        (λ d h. old-Kept d h.0) (λ d h. old-Kept d h.0) t

  -- A read in front of what keeps the record.
  after_read :
      {A : Type 0} {R : Type 0} (Q : R → Assertion) {m : M R} {n : R → M A}
      → Triple Start m (λ a d. Start d × Q a d) Start Start
      → ((a : R) → Triple (λ d. Start d × Q a d) (n a) (λ _. End) End End)
      → Triple Start (m >>= n) (λ _. End) End End
  after_read Q t u =
      Triple-bind (λ a d. Start d × Q a d)
        (Triple-weaken (λ a d. Start d × Q a d) (λ a d. Start d × Q a d) Start End Start End
          (λ d h. h) (λ a d h. h) (λ d h. old-Kept d h.0) (λ d h. old-Kept d h.0) t)
        u

  pending_activation-Kept :
      (x : Index) (a : Answer Bytes)
      → Triple
          (λ d. Start d × Read replace_pending a d)
          (pending_activation c env x a)
          (λ _. End)
          End
          End
  unfolding pending_activation
  pending_activation-Kept x (refused e) = record {
    at = λ d h.
        (keep_old (Keeps-if Start (is_missing e) (Keeps-give Start x) (Keeps-raise Start e))).at d
          h.0;
  }
  pending_activation-Kept x (got raw) = record {
    at = λ d h.
        let (g, found, contents) = h.1 in
        (go g (sym h.0.1 ∙ found) contents (decode c raw) refl).at d h.0;
  }
    where
      go :
          (g : File)
          → o ≡ some g
          → g.contents ≡ raw
          → (m : Option LogRecord) → decode c raw ≡ m
          → Triple Start
              (elim m as (λ _. M Index) [
                | none ↦ raise conflict
                | some p ↦
                    if not p.ready
                    then raise conflict
                    else elim (find_admission p.admission_id x.admissions) [
                      | none ↦ raise conflict
                      | some n ↦ read env (rec n) max_record >>= λ b.
                          finish_activation c env n p x (decode c b)
                    ]
              ])
              (λ _. End)
              End
              End
      go g og gc none e = keep_old (Keeps-raise Start conflict)
      go g og gc (some p) e = ready p.ready
        where
          found :
              (a : Option ℕ)
              → Triple Start
                  (elim a as (λ _. M Index) [
                    | none ↦ raise conflict
                    | some n ↦ read env (rec n) max_record >>= λ b.
                        finish_activation c env n p x (decode c b)
                  ])
                  (λ _. End)
                  End
                  End
          found none = keep_old (Keeps-raise Start conflict)
          found (some n) =
              after_read (λ b. Read (rec n) (got b))
                (read-Triple env Start (rec n) max_record
                  (look-Here c env k f r o synced durable decodes _))
                (λ b. finish_activation-Kept g og p (ap (decode c) gc ∙ e) n b x)

          ready :
              (b : Bool)
              → Triple {A = Index} Start
                  (if not b
                    then raise conflict
                    else elim (find_admission p.admission_id x.admissions) [
                      | none ↦ raise conflict
                      | some n ↦ read env (rec n) max_record >>= λ b.
                          finish_activation c env n p x (decode c b)
                    ])
                  (λ _. End)
                  End
                  End
          ready false = keep_old (Keeps-raise Start conflict)
          ready true = found (find_admission p.admission_id x.admissions)

  pub recover_activation-Kept :
      (x : Index) → Triple Start (recover_activation c env x) (λ _. End) End End
  unfolding recover_activation
  recover_activation-Kept x =
      after_read (λ a. Read replace_pending a)
        (ask-read-Triple env Start replace_pending max_record
          (look-Here c env k f r o synced durable decodes _))
        (λ a. pending_activation-Kept x a)
