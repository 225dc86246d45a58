-- ===== src/Logtail/Covers.antt =====
-- internal/logtail/tailer_linux.go: the checkpoint of a file passes no line that was not admitted.
use observe_agent.Base.{
  ℕ, zero, suc, ◌+◌, ◌≡◌, refl, sym, ap, ◌∙◌, ◌⊎◌, inl, inr, Bool, true, false, not, ◌||◌, some,
  List, ◌∷◌, arith, ltb, ◌==◌, if◌then◌else◌, Bool-cases, length, Bytes,
}
use observe_agent.Logtail.{activate, Tail, Source, Record, Checkpoint, commit, emit}
use observe_agent.Logtail.Line.{Line, read_line, without_line_ending}
use observe_agent.Logtail.Consume.{multi_line, reject_line, single_line, take_line, consume_lines}

module _ (src : Source) (contents : Bytes) where
  abbrev pub line_at : ℕ → Line
  line_at b = read_line contents b src.max_line_bytes

  abbrev pub text_at : ℕ → Bytes
  text_at b = src.to_valid_utf8 (without_line_ending (line_at b).text)

  -- The line is complete, and too large or blank.
  abbrev pub IsRejected : ℕ → Type 0
  IsRejected b =
      ((line_at b).complete ≡ true) × (((line_at b).too_large ≡ true) ⊎ (length (text_at b) ≡ 0))

  -- The record is the line of the file at its start.
  abbrev pub IsLine : Record → Type 0
  IsLine r = (r.body ≡ text_at r.start) × (r.end ≡ (line_at r.start).end)

  -- `Passed a b`: from `a` to `b` there are rejected lines only.
  pub data Passed : ℕ → ℕ → Type 0 where
    here : {a : ℕ} → Passed a a
    beyond : {a b : ℕ} → Passed a b → IsRejected b → Passed a (line_at b).end

  -- `Covered a b rs`: every line from `a` to `b` is rejected or one of the records `rs`, in order.
  -- A record that was admitted again, or whose checkpoint was not saved, may stand among them.
  pub data Covered : ℕ → ℕ → List Record → Type 0 where
    from_here : {a : ℕ} {rs : List Record} → Covered a a rs
    rejected_line :
        {a b : ℕ} {rs : List Record} → Covered a b rs → IsRejected b → Covered a (line_at b).end rs
    admitted_line :
        {a b : ℕ} {rs : List Record} (r : Record)
        → Covered a b rs
        → (line_at b).complete ≡ true
        → r.start ≡ b
        → IsLine r
        → Covered a (line_at b).end (r ∷ rs)
    unsaved :
        {a b : ℕ} {rs : List Record} (r : Record) → Covered a b rs → IsLine r → Covered a b (r ∷ rs)

  -- The checkpoint is the committed offset; up to it the file is covered from `a` on; and what was
  -- read beyond it is rejected lines.
  pub record IsTracked (a : ℕ) (t : Tail) : Type 0 where
    pub covered : Covered a t.committed t.admitted
    pub passed : Passed t.committed t.read_offset
    pub saved : (c : Checkpoint) → t.checkpoint ≡ some c → c.offset ≡ t.committed

  Covered-Passed : (a b d : ℕ) (rs : List Record) → Covered a b rs → Passed b d → Covered a d rs
  Covered-Passed a b _ rs c here = c
  Covered-Passed a b _ rs c (beyond {b = e} p r) = rejected_line (Covered-Passed a b e rs c p) r

  offset_saved : (c d : Checkpoint) (n : ℕ) → d.offset ≡ n → some d ≡ some c → c.offset ≡ n
  offset_saved c d n e x = sym (ap (λ (k : Checkpoint). k.offset) (inj x)) ∙ e
    where
      inj : some d ≡ some c → d ≡ c
      inj y = cc

  reread : (n : ℕ) → (if ltb n n then n else n) ≡ n
  reread n = ground arith

  activate-IsTracked :
      {a : ℕ} (b : Bool) (t : Tail)
      → IsTracked a (record t { read_offset = t.committed })
      → t.read_offset ≡ t.committed
      → let x = activate src b t in
        IsTracked a (record x.1 { read_offset = x.1.committed })
        × (x.0 ≡ true → x.1.read_offset ≡ x.1.committed)
  unfolding activate
  activate-IsTracked true t i e =
      (record { covered = i.covered; passed = i.passed; saved = i.saved }, λ x. e)
  activate-IsTracked false t i e = (i, λ x. e)

  module _ (now a : ℕ) (t : Tail) (i : IsTracked a t) where
    abbrev next_end : ℕ
    next_end = (line_at t.read_offset).end

    abbrev advanced : Tail
    advanced = record t { read_offset = next_end; records_read = t.records_read + 1 }

    reject-IsTracked :
        IsRejected t.read_offset → IsTracked a (reject_line src now advanced next_end).1
    unfolding reject_line commit
    reject-IsTracked r = elim (Bool-cases (src.saves t.calls)) [
      | inl e ↦
          rw (e, reread)
            (record {
              covered =
                  rejected_line
                    (Covered-Passed a t.committed t.read_offset t.admitted i.covered i.passed) r;
              passed = here;
              saved = λ c x. offset_saved c _ next_end refl x;
            })
      | inr e ↦ rw e (record { covered = i.covered; passed = beyond i.passed r; saved = i.saved })
    ]

    abbrev emitted : Bool × Tail
    emitted = emit src advanced t.read_offset next_end (text_at t.read_offset)

    -- The result of an admission: the record is on the list, and the file is tracked if the reading
    -- goes back to what was committed, or on from there after a success.
    emit-IsTracked :
        (line_at t.read_offset).complete ≡ true
        → IsTracked a (record emitted.1 { read_offset = emitted.1.committed })
          × (emitted.0 ≡ true → emitted.1.read_offset ≡ emitted.1.committed)
    unfolding emit commit
    emit-IsTracked whole = elim (Bool-cases (src.admits t.calls)) [
      | inr e ↦ rw e (record { covered = i.covered; passed = here; saved = i.saved }, λ x. cc)
      | inl e ↦ elim (Bool-cases (src.saves (t.calls + 1))) [
        | inr f ↦
            rw (e, f)
              (
                record {
                  covered = unsaved _ i.covered (refl, refl);
                  passed = here;
                  saved = i.saved;
                },
                λ x. cc,
              )
        | inl f ↦
            rw (e, f)
              (activate-IsTracked src.has_activate _
                (record {
                  covered =
                      admitted_line _
                        (Covered-Passed a t.committed t.read_offset t.admitted i.covered i.passed)
                        whole refl (refl, refl);
                  passed = here;
                  saved = λ c x. offset_saved c _ next_end refl x;
                })
                (reread next_end))
      ]
    ]

    -- A line of a source without multiline records.
    single-IsTracked :
        (line_at t.read_offset).complete ≡ true
        → IsTracked a
            (single_line src now advanced t.read_offset next_end (text_at t.read_offset)).1
    unfolding single_line
    single-IsTracked whole = elim (Bool-cases (length (text_at t.read_offset) == 0)) [
      | inl e ↦ rw e (reject-IsTracked (whole, inr (none_left e)))
      | inr e ↦ elim (Bool-cases emitted.0) [
        | inr f ↦ rw (e, f) (emit-IsTracked whole).0
        | inl f ↦
            let (k, same) = emit-IsTracked whole in
            rw (e, f)
              (record { covered = k.covered; passed = rw (same f) k.passed; saved = k.saved })
      ]
    ]
      where
        none_left :
            (length (text_at t.read_offset) == 0) ≡ true → length (text_at t.read_offset) ≡ 0
        none_left h = ground arith

    take_line-IsTracked :
        src.multiline ≡ false
        → (line_at t.read_offset).complete ≡ true
        → IsTracked a (take_line src now t t.read_offset (line_at t.read_offset)).1
    unfolding take_line
    take_line-IsTracked single whole = elim (Bool-cases (line_at t.read_offset).too_large) [
      | inl e ↦ rw e (reject-IsTracked (whole, inl e))
      | inr e ↦ rw e (one_line src.multiline single)
    ]
      where
        one_line :
            (b : Bool)
            → b ≡ false
            → let x : Bool × Tail =
                if b
                then multi_line src now advanced t.read_offset next_end (text_at t.read_offset)
                else single_line src now advanced t.read_offset next_end (text_at t.read_offset) in
              IsTracked a x.1
        one_line true e = cc
        one_line false e = single-IsTracked whole

  -- Without multiline records: whatever the admission, the checkpoints and the activation answer,
  -- the loop of `consume` keeps the file tracked, so that every line before the saved checkpoint was
  -- admitted, or was too large or blank.
  pub consume_lines-IsTracked :
      (now a fuel : ℕ) (reads : ℕ → Bool) (t : Tail)
      → src.multiline ≡ false
      → IsTracked a t
      → IsTracked a (consume_lines src now fuel reads contents t).1
  unfolding consume_lines
  consume_lines-IsTracked now a zero reads t single i = i
  consume_lines-IsTracked now a (suc fuel) reads t single i =
      elim (Bool-cases (ltb t.read_offset (length contents))) [
        | inr e ↦ rw e i
        | inl e ↦
            elim (Bool-cases (not (reads t.read_offset) || not (line_at t.read_offset).complete)) [
              | inl f ↦ rw (e, f) i
              | inr f ↦
                  let whole = complete (reads t.read_offset) (line_at t.read_offset).complete f in
                  let j = take_line-IsTracked now a t i single whole in
                  let x = take_line src now t t.read_offset (line_at t.read_offset) in
                  elim (Bool-cases x.0) [
                    | inl g ↦ rw (e, f, g) (consume_lines-IsTracked now a fuel reads x.1 single j)
                    | inr g ↦ rw (e, f, g) j
                  ]
            ]
      ]
    where
      complete : (r c : Bool) → (not r || not c) ≡ false → c ≡ true
      complete r c h = ground arith
