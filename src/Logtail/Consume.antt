-- ===== src/Logtail/Consume.antt =====
-- internal/logtail/tailer_linux.go: `consume`.
use observe_agent.Base.{
  ℕ, zero, suc, ◌+◌, ◌-◌, Bool, true, false, not, ◌&&◌, ◌||◌, [], ◌∷◌, ◌++◌, ltb, leb, ◌==◌,
  if◌then◌else◌, length, Bytes,
}
use observe_agent.Logtail.{Tail, Source, no_pending, commit, emit, flush}
use observe_agent.Logtail.Line.{Line, read_line, without_line_ending}

module _ (src : Source) (now : ℕ) where
  -- A line that is too large or blank: it is counted and passed.
  unfoldable pub reject_line : Tail → ℕ → Bool × Tail
  reject_line t end = commit src (record t { rejected_local = t.rejected_local + 1 }) end ""

  -- A line of its own record.
  unfoldable pub single_line : Tail → ℕ → ℕ → Bytes → Bool × Tail
  single_line t start end text =
      let (done, t1) = emit src t start end text in
      if length text == 0
      then reject_line t end
      else if done
      then (true, t1)
      else (false, record t1 { read_offset = t1.committed })

  abbrev begun : Tail → ℕ → Tail
  begun t start = record t {
    pending = record { body = []; start = start; end = 0; lines = 0; since = now };
  }

  -- The line joins the pending record.
  unfoldable pub join_line : Tail → ℕ → Bytes → Tail
  join_line t end text =
      let p = t.pending in
      let glue = if p.lines == 0 then p.body else p.body ++ (10 ∷ []) in
      record t { pending = record p { body = glue ++ text; lines = p.lines + 1; end = end } }

  -- The pending record is full.
  unfoldable pub make_room : Tail → ℕ → Bytes → Bool × Tail
  make_room t start text =
      let p = t.pending in
      let additional = if p.lines == 0 then length text else length text + 1 in
      let (done, t1) = flush src t in
      if leb src.max_lines p.lines || ltb src.max_bytes (length p.body + additional)
      then (if done then (true, begun t1 start) else (false, record t1 { read_offset = start }))
      else (true, t)

  abbrev pub begun_if_none : Tail → ℕ → Tail
  begun_if_none t start = if t.pending.lines == 0 then begun t start else t

  -- The line is put into a pending record, which is made if there is none.
  unfoldable pub place_line : Tail → ℕ → ℕ → Bytes → Bool × Tail
  place_line t start end text =
      let (room, t1) = make_room (begun_if_none t start) start text in
      if room then (true, join_line t1 end text) else (false, t1)

  -- A line of a multiline source.
  unfoldable pub multi_line : Tail → ℕ → ℕ → Bytes → Bool × Tail
  multi_line t start end text =
      let (done, t1) = flush src t in
      let after = place_line t1 start end text in
      let same = place_line t start end text in
      if src.starts text && not (t.pending.lines == 0)
      then (if done then after else (false, record t1 { read_offset = start }))
      else same

  -- The body of the loop for a complete line.
  unfoldable pub take_line : Tail → ℕ → Line → Bool × Tail
  take_line t start l =
      let t1 = record t { read_offset = l.end; records_read = t.records_read + 1 } in
      let text = src.to_valid_utf8 (without_line_ending l.text) in
      if l.too_large
      then reject_line t1 l.end
      else if src.multiline
      then multi_line t1 start l.end text
      else single_line t1 start l.end text

  -- The loop, on fuel. `true` is its end, `false` a return from `consume`. `reads` is whether the
  -- read at an offset succeeds.
  unfoldable pub consume_lines : ℕ → (ℕ → Bool) → Bytes → Tail → Bool × Tail
  consume_lines zero reads contents t = (true, t)
  consume_lines (suc fuel) reads contents t =
      let l = read_line contents t.read_offset src.max_line_bytes in
      let (on, t1) = take_line t t.read_offset l in
      let rest = consume_lines fuel reads contents t1 in
      if not (ltb t.read_offset (length contents))
      then (true, t)
      else if not (reads t.read_offset) || not l.complete
      then (true, t)
      else if on
      then rest
      else (false, t1)

  -- A file that is shorter than what was committed was truncated: it is read anew.
  unfoldable pub restart : Bytes → Tail → Bool × Tail
  restart contents t =
      let anew = record t {
        generation = t.generation + 1;
        committed = 0;
        read_offset = 0;
        pending = no_pending;
      } in
      if ltb (length contents) t.committed then commit src anew 0 "" else (true, t)

  -- `consume`, of a file with these contents; the loop makes at most one pass for each byte.
  unfoldable pub consume : (ℕ → Bool) → Bytes → Tail → Tail
  consume reads contents t =
      let (on, t1) = restart contents t in
      let (ended, t2) = consume_lines (length contents) reads contents t1 in
      let timed_out =
        not (t2.pending.lines == 0) && leb src.flush_timeout (now - t2.pending.since) in
      let (_, t3) = flush src t2 in if not on then t1 else if ended && timed_out then t3 else t2
