-- ===== src/Journal/Progress.antt =====
-- internal/journaltail/reader_linux.go, `consume`: which records it admits, and how far the
-- checkpoint file is behind them.
use observe_agent.Base.{
  ℕ, ◌+◌, String, ◌≡◌, refl, sym, ap, subst, ◌∙◌, ◌≢◌, ◌⊎◌, inl, inr, Bool, true, false, Option,
  none, some, List, [], ◌∷◌, ◌++◌, Bool-cases, Bytes,
}
use observe_agent.Queue.Files.{File, Dir, Faults, Io, ok, err, crashed}
use observe_agent.Queue.Files.Logic.{Ensures}
use observe_agent.Queue.Files.Steps.{IsDurable, settled_file}
use observe_agent.Journal.{
  Outside, Reader, Checkpoint, Result, done, failed, died, target, pending, save_checkpoint,
  checkpoint_of, activate, saved, take_record, take_line, go_on, consume,
}
use observe_agent.Journal.Parse.{Record, Parser, parse_record}
use observe_agent.Journal.Save.{is_safe, Torn, save_checkpoint-Triple}

abbrev pub Entry : Type 0
Entry = Record × String

-- The records of the lines.
abbrev pub parsed : Parser → List Bytes → List Entry
parsed p [] = []
parsed p (l ∷ ls) =
    let rest = parsed p ls in elim (parse_record p l) [ none ↦ rest | some e ↦ e ∷ rest ]

module _ (out : Outside) (env : Faults) where
  -- The file is the synced checkpoint of the record.
  abbrev pub IsMark : Entry → Option File → Type 0
  IsMark (r, cursor) o =
      (t : ℕ) × (o ≡ some (settled_file (out.encode (checkpoint_of out env r cursor t))))

  -- What a read of the lines admits, from one content of the checkpoint file to another.
  pub data Reads : List Bytes → Option File → List Entry → Option File → Type 0 where
    stops : {ls : List Bytes} {o : Option File} → Reads ls o [] o
    skips :
        {l : Bytes} {ls : List Bytes} {o o' : Option File} {es : List Entry}
        → parse_record out.parser l ≡ none
        → Reads ls o es o'
        → Reads (l ∷ ls) o es o'
    takes :
        {l : Bytes} {ls : List Bytes} {o : Option File} {e : Entry}
        → parse_record out.parser l ≡ some e
        → Reads (l ∷ ls) o (e ∷ []) o
    marks :
        {l : Bytes} {ls : List Bytes} {o o1 o' : Option File} {e : Entry} {es : List Entry}
        → parse_record out.parser l ≡ some e
        → IsMark e o1
        → Reads ls o1 es o'
        → Reads (l ∷ ls) o (e ∷ es) o'

  -- What the body leaves of a parsed record.
  abbrev Taken : Entry → Reader → Result × Reader → Type 0
  Taken e q (x, q') =
      ((x ≢ done) × (q'.admitted ≡ q.admitted) × (q'.dir.files target ≡ q.dir.files target))
      ⊎ ((q'.admitted ≡ q.admitted ++ (e ∷ []))
          × (((x ≢ done) × (q'.dir.files target ≡ q.dir.files target))
              ⊎ (IsMark e (q'.dir.files target) × (x ≡ done → q'.dir.files pending ≡ none))))

  activate_frame :
      (b : Bool) (q : Reader)
      → ((activate out env b q).1.admitted ≡ q.admitted) × ((activate out env b q).1.dir ≡ q.dir)
  unfolding activate
  activate_frame false q = (refl, refl)
  activate_frame true q = elim (Bool-cases (out.activates q.calls)) [
    | inl t ↦ rw t (refl, refl)
    | inr t ↦ rw t (refl, refl)
  ]

  abbrev mark_of : Entry → Reader → Checkpoint
  mark_of (r, cursor) q = checkpoint_of out env r cursor (out.now q.calls)

  abbrev after : Entry → Reader → Dir → Reader
  after e q d = record q { dir = d; admitted = q.admitted ++ (e ∷ []); calls = q.calls + 1 }

  saved-Taken :
      (e : Entry) (q : Reader) (x : Io (Unit {0})) (d : Dir) (o : Option File)
      (durable : IsDurable o)
      → q.dir.files target ≡ o
      → Ensures
          (λ _ d'.
            (d'.files target ≡ some (settled_file (out.encode (mark_of e q))))
            × (d'.files pending ≡ none))
          (Torn out env o durable (out.encode (mark_of e q)))
          (Torn out env o durable (out.encode (mark_of e q)))
          x
          d
      → Taken e q (saved out env (mark_of e q) x (after e q d))
  unfolding saved
  saved-Taken e q (ok a) d o durable same h =
      let frame = activate_frame out.has_activate (record (after e q d) { cp = mark_of e q }) in
      inr (
        frame.0,
        inr (
          (out.now q.calls, ap (λ x. x.files target) frame.1 ∙ h.0),
          λ _. ap (λ x. x.files pending) frame.1 ∙ h.1,
        ),
      )
  saved-Taken e q (err x) d o durable same (inl h) = inr (refl, inl (λ y. cc, h ∙ sym same))
  saved-Taken e q (err x) d o durable same (inr h) = inr (refl, inr ((out.now q.calls, h), λ y. cc))
  saved-Taken e q crashed d o durable same (inl h) = inr (refl, inl (λ y. cc, h ∙ sym same))
  saved-Taken e q crashed d o durable same (inr h) = inr (refl, inr ((out.now q.calls, h), λ y. cc))

  take_record-Taken :
      (r : Record) (cursor : String) (q : Reader)
      → IsDurable (q.dir.files target)
      → is_safe (q.dir.files pending) ≡ true
      → Taken (r, cursor) q (take_record out env r cursor q)
  unfolding take_record
  take_record-Taken r cursor q durable safe =
      let e : Entry = (r, cursor) in
      elim (Bool-cases (out.admits q.calls)) [
        | inl t ↦ rw t (
            saved-Taken e q (save_checkpoint out env (mark_of e q) q.dir).0
              (save_checkpoint out env (mark_of e q) q.dir).1 (q.dir.files target) durable refl
              ((save_checkpoint-Triple out env (q.dir.files target) durable (mark_of e q)).at q.dir
                (refl, safe)))
        | inr t ↦ rw t (inl (λ y. cc, refl, refl))
      ]

  -- What `consume` has admitted, and where it leaves the checkpoint file.
  pub record Consumed (ls : List Bytes) (q : Reader) (r : Result × Reader) : Type 0 where
    pub new : List Entry
    pub appended : r.1.admitted ≡ q.admitted ++ new
    pub reads : Reads ls (q.dir.files target) new (r.1.dir.files target)
    pub complete : r.0 ≡ done → new ≡ parsed out.parser ls

  append_nil : (xs : List Entry) → xs ++ [] ≡ xs
  append_nil [] = refl
  append_nil (x ∷ xs) = ap (λ r. x ∷ r) (append_nil xs)

  append_one :
      (xs : List Entry) (y : Entry) (ys : List Entry) → (xs ++ (y ∷ [])) ++ ys ≡ xs ++ (y ∷ ys)
  append_one [] y ys = refl
  append_one (x ∷ xs) y ys = ap (λ r. x ∷ r) (append_one xs y ys)

  -- A body that does not end well ends the read.
  stopped :
      (l : Bytes) (ls : List Bytes) (e : Entry) (q : Reader) (x : Result) (q' : Reader)
      → parse_record out.parser l ≡ some e
      → x ≢ done
      → Taken e q (x, q')
      → Consumed (l ∷ ls) q (x, q')
  stopped l ls e q x q' h ne (inl (_, same, file)) = record {
    new = [];
    appended = same ∙ sym (append_nil q.admitted);
    reads = subst (λ o. Reads (l ∷ ls) (q.dir.files target) [] o) (sym file) stops;
    complete = λ y. absurd (ne y);
  }
  stopped l ls e q x q' h ne (inr (added, inl (_, file))) = record {
    new = e ∷ [];
    appended = added;
    reads = subst (λ o. Reads (l ∷ ls) (q.dir.files target) (e ∷ []) o) (sym file) (takes h);
    complete = λ y. absurd (ne y);
  }
  stopped l ls e q x q' h ne (inr (added, inr (mark, _))) = record {
    new = e ∷ [];
    appended = added;
    reads = marks h mark stops;
    complete = λ y. absurd (ne y);
  }

  module _ (l : Bytes) (ls : List Bytes) (whole : Bool)
      (rest : (q : Reader)
        → IsDurable (q.dir.files target)
        → is_safe (q.dir.files pending) ≡ true
        → Consumed ls q (consume out env ls whole q)) where
    IsMark-IsDurable : (e : Entry) (o : Option File) → IsMark e o → IsDurable o
    IsMark-IsDurable e o (t, h) = rw h refl

    absent_safe : (o : Option File) → o ≡ none → is_safe o ≡ true
    absent_safe o h = rw h refl

    taken :
        (e : Entry) (q : Reader) (x : Result) (q' : Reader)
        → parse_record out.parser l ≡ some e
        → Taken e q (x, q')
        → Consumed (l ∷ ls) q (go_on out env (x, q') (consume out env ls whole q'))
    taken e q failed q' h t = stopped l ls e q failed q' h (λ y. cc) t
    taken e q died q' h t = stopped l ls e q died q' h (λ y. cc) t
    taken e q done q' h (inl (ne, _, _)) = absurd (ne refl)
    taken e q done q' h (inr (_, inl (ne, _))) = absurd (ne refl)
    taken e q done q' h (inr (added, inr (mark, absent))) =
        let later =
          rest q' (IsMark-IsDurable e (q'.dir.files target) mark)
            (absent_safe (q'.dir.files pending) (absent refl)) in
        record {
          new = e ∷ later.new;
          appended =
              later.appended ∙ ap (λ xs. xs ++ later.new) added ∙ append_one q.admitted e later.new;
          reads = marks h mark later.reads;
          complete = λ y. rw (parsed, h) (ap (λ xs. e ∷ xs) (later.complete y));
        }

    line :
        (o : Option Entry) (q : Reader)
        → parse_record out.parser l ≡ o
        → IsDurable (q.dir.files target)
        → is_safe (q.dir.files pending) ≡ true
        → Consumed (l ∷ ls) q (
            go_on out env
              (take_line out env o q)
              (consume out env ls whole (take_line out env o q).1))
    line none q h durable safe =
        let later = rest (record q { rejected_local = q.rejected_local + 1 }) durable safe in
        record {
          new = later.new;
          appended = later.appended;
          reads = skips h later.reads;
          complete = λ y. rw (parsed, h) (later.complete y);
        }
    line (some (r, cursor)) q h durable safe =
        let here = take_record out env r cursor q in
        taken (r, cursor) q here.0 here.1 h (take_record-Taken r cursor q durable safe)

  -- If the checkpoint file is synced, and the temporary file is absent or private, then on every
  -- outcome of `consume`, each error and a crash included: the records it has admitted are, in order,
  -- those of the first lines, of which only lines that do not parse are left out; before the next
  -- record is admitted, the checkpoint file is the synced checkpoint of the one before, so that in
  -- the end it is that of the last admitted record or of the one before it, or as it was; and if the
  -- call ends without an error, every record of the lines was admitted.
  pub consume-Consumed :
      (ls : List Bytes) (whole : Bool) (q : Reader)
      → IsDurable (q.dir.files target)
      → is_safe (q.dir.files pending) ≡ true
      → Consumed ls q (consume out env ls whole q)
  unfolding consume
  consume-Consumed [] whole q durable safe = record {
    new = [];
    appended = sym (append_nil q.admitted);
    reads = stops;
    complete = λ _. refl;
  }
  consume-Consumed (l ∷ ls) whole q durable safe =
      line l ls whole (λ q'. consume-Consumed ls whole q') (parse_record out.parser l) q refl
        durable safe
