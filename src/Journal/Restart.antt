-- ===== src/Journal/Restart.antt =====
-- internal/journaltail/reader_linux.go: where a restart reads on after `consume`.
use observe_agent.Base.{
  ℕ, ◌≤◌, String, ◌≡◌, refl, ap, subst, ◌∙◌, ◌⊎◌, inl, inr, Bool, true, false, ◌||◌, Option, none,
  some, List, [], ◌∷◌, ◌++◌, arith, str_eq, ltb, leb, ◌==◌, All, length, len, ||-parts4, Bytes,
  lookup,
}
use observe_agent.Queue.Files.{File, Dir, Faults, pass, ok}
use observe_agent.Queue.Files.Steps.{IsDurable, settled_file}
use observe_agent.Journal.{
  Outside, Reader, Checkpoint, Result, target, pending, checkpoint_of, consume, load_checkpoint,
  accept_checkpoint, is_valid, max_checkpoint,
}
use observe_agent.Journal.Parse.{
  Record, Parser, Value, parse_record, build_record, string_value, max_record_bytes,
}
use observe_agent.Journal.Save.{is_safe}
use observe_agent.Journal.Progress.{
  Entry, parsed, IsMark, Reads, stops, skips, takes, marks, consume-Consumed,
}

-- A parsed record has a cursor of at most 4096 bytes.
build_record-cursor :
    (p : Parser) (v : String → String) (e : Entry)
    → build_record p v ≡ some e
    → ltb 4096 (len e.1) ≡ false
unfolding build_record
build_record-cursor p v e h =
    go
      (str_eq (v "__CURSOR") ""
        || ltb 4096 (len (v "__CURSOR"))
        || str_eq (v "MESSAGE") ""
        || ltb max_record_bytes (len (v "MESSAGE")))
      refl
  where
    same_cursor : (r : Record) → some (r, v "__CURSOR") ≡ some e → v "__CURSOR" ≡ e.1
    same_cursor r x = cc

    go :
        (b : Bool)
        → (str_eq (v "__CURSOR") ""
            || ltb 4096 (len (v "__CURSOR"))
            || str_eq (v "MESSAGE") ""
            || ltb max_record_bytes (len (v "MESSAGE")))
          ≡ b
        → ltb 4096 (len e.1) ≡ false
    go true t = cc (rw t at h)
    go false t =
        let parts =
          ||-parts4 (str_eq (v "__CURSOR") "") (ltb 4096 (len (v "__CURSOR")))
            (str_eq (v "MESSAGE") "") (ltb max_record_bytes (len (v "MESSAGE"))) t in
        subst (λ c. ltb 4096 (len c) ≡ false) (same_cursor _ (rw t at h)) parts.1

parse_record-cursor :
    (p : Parser) (l : Bytes) (e : Entry) → parse_record p l ≡ some e → ltb 4096 (len e.1) ≡ false
unfolding parse_record
parse_record-cursor p l e h = go (length l == 0 || ltb max_record_bytes (length l)) refl
  where
    decoded :
        (o : Option (List (String × Value)))
        → (elim o as (λ _. Option Entry) [
          | none ↦ none
          | some values ↦ build_record p (λ k. string_value (lookup k values))
        ])
          ≡ some e
        → ltb 4096 (len e.1) ≡ false
    decoded none x = cc
    decoded (some values) x = build_record-cursor p _ e x

    go :
        (b : Bool)
        → (length l == 0 || ltb max_record_bytes (length l)) ≡ b
        → ltb 4096 (len e.1) ≡ false
    go true t = cc (rw t at h)
    go false t = decoded (p.unmarshal l) (rw t at h)

mark-is_valid :
    (out : Outside) (env : Faults) (e : Entry) (t : ℕ)
    → ltb 4096 (len e.1) ≡ false
    → is_valid out env (checkpoint_of out env e.0 e.1 t) ≡ true
mark-is_valid out env e t h = rw h refl

module _ (out : Outside) (env : Faults) where
  -- Every checkpoint of the record is read back, and is within the limit of the reads.
  abbrev pub Fits : Entry → Type 0
  Fits (r, cursor) =
      (t : ℕ)
      → (length (out.encode (checkpoint_of out env r cursor t)) ≤ max_checkpoint)
        × (out.decode (out.encode (checkpoint_of out env r cursor t))
            ≡ some (checkpoint_of out env r cursor t))

  -- The file is the checkpoint of the last entry but at most one.
  record Marked (es : List Entry) (o : Option File) : Type 0 where
    entry : Entry
    before : List Entry
    behind : List Entry
    split : es ≡ before ++ (entry ∷ behind)
    few : length behind ≤ 1
    mark : IsMark out env entry o
    fits : Fits entry
    bound : ltb 4096 (len entry.1) ≡ false

  -- A marked record in front of what follows.
  in_front :
      (e : Entry) (es : List Entry) (o o' : Option File)
      → IsMark out env e o
      → Fits e
      → ltb 4096 (len e.1) ≡ false
      → ((o' ≡ o) × (length es ≤ 1)) ⊎ Marked es o'
      → Marked (e ∷ es) o'
  in_front e es o o' (t, mark) fits bound (inl (same, few)) = record {
    entry = e;
    before = [];
    behind = es;
    split = refl;
    few = few;
    mark = (t, same ∙ mark);
    fits = fits;
    bound = bound;
  }
  in_front e es o o' mark fits bound (inr m) = record {
    entry = m.entry;
    before = e ∷ m.before;
    behind = m.behind;
    split = ap (λ xs. e ∷ xs) m.split;
    few = m.few;
    mark = m.mark;
    fits = m.fits;
    bound = m.bound;
  }

  Reads-Marked :
      (ls : List Bytes) (o : Option File) (es : List Entry) (o' : Option File)
      → All Fits (parsed out.parser ls)
      → Reads out env ls o es o'
      → ((o' ≡ o) × (length es ≤ 1)) ⊎ Marked es o'
  Reads-Marked ls o _ _ fits stops = inl (refl, omega arith)
  Reads-Marked _ o es o' fits (skips {ls = ls} h r) =
      Reads-Marked ls o es o' (rw (parsed, h) at fits) r
  Reads-Marked _ o _ _ fits (takes h) = inl (refl, omega arith)
  Reads-Marked _ o _ o' fits (marks {l = l} {ls = ls} {o1 = o1} {e = e} {es = es} h mark r) =
      let all = rw (parsed, h) at fits in
      inr (
        in_front e es o1 o' mark all.0 (parse_record-cursor out.parser l e h)
          (Reads-Marked ls o1 es o' all.1 r))

  -- The load of a checkpoint file that holds a valid checkpoint.
  load_stored :
      (d : Dir) (cp : Checkpoint)
      → env.fault d.ticks ≡ pass
      → d.files target ≡ some (settled_file (out.encode cp))
      → out.decode (out.encode cp) ≡ some cp
      → length (out.encode cp) ≤ max_checkpoint
      → is_valid out env cp ≡ true
      → (load_checkpoint out env d).0 ≡ ok cp
  unfolding load_checkpoint accept_checkpoint
  load_stored d cp calm found decodes fits valid =
      let within : leb (length (out.encode cp)) max_checkpoint ≡ true = ground arith in
      rw (calm, found, within, accept_checkpoint, decodes, valid) refl

-- What a restart finds behind `consume`.
pub record Restarts (out : Outside) (env : Faults) (q : Reader) (r : Result × Reader) : Type 0 where
  pub new : List Entry
  pub appended : r.1.admitted ≡ q.admitted ++ new
  pub resumes :
      ((r.1.dir.files target ≡ q.dir.files target) × (length new ≤ 1))
      ⊎ ((e : Entry) × (before : List Entry) × (behind : List Entry) × (new
            ≡ before ++ (e ∷ behind))
          × (length behind ≤ 1)
          × ((t : ℕ) × ((load_checkpoint out env r.1.dir).0
                ≡ ok (checkpoint_of out env e.0 e.1 t))))

-- If the checkpoint file is synced and the temporary file is absent or private, and if the
-- checkpoints of the records of the lines are read back by json.Unmarshal and are within the limit
-- of the reads, then after every outcome of `consume`, each error and a crash included, the next
-- `loadCheckpoint`, whose read does not fail, gives the cursor of the last admitted record or of
-- the one before it; or the checkpoint file is as it was and at most one record was admitted.
pub consume-Restarts :
    (out : Outside) (env later : Faults) (ls : List Bytes) (whole : Bool) (q : Reader)
    → IsDurable (q.dir.files target)
    → is_safe (q.dir.files pending) ≡ true
    → All (Fits out env) (parsed out.parser ls)
    → later.fault (consume out env ls whole q).1.dir.ticks ≡ pass
    → Restarts out later q (consume out env ls whole q)
consume-Restarts out env later ls whole q durable safe fits calm =
    let c = consume-Consumed out env ls whole q durable safe in
    let d = (consume out env ls whole q).1.dir in
    record {
      new = c.new;
      appended = c.appended;
      resumes =
          elim (Reads-Marked out env ls (q.dir.files target) c.new (d.files target) fits c.reads) [
            | inl h ↦ inl h
            | inr m ↦ inr (
              m.entry,
              m.before,
              m.behind,
              m.split,
              m.few,
              (
                m.mark.0,
                load_stored out later d (checkpoint_of out env m.entry.0 m.entry.1 m.mark.0) calm
                    m.mark.1 (m.fits m.mark.0).1 (m.fits m.mark.0).0
                    (mark-is_valid out later m.entry m.mark.0 m.bound),
              ),
            )
          ];
    }
