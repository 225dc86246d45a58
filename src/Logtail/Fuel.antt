-- ===== src/Logtail/Fuel.antt =====
-- internal/logtail/tailer_linux.go: the loop of `consume` ends.
use observe_agent.Base.{
  ℕ, zero, suc, ◌+◌, ◌≤◌, ◌<◌, String, ◌≡◌, refl, sym, inl, inr, Bool, true, false, not, ◌||◌, [],
  ◌∷◌, arith, ltb, if◌then◌else◌, Bool-cases, length, drop, Bytes,
}
use observe_agent.Logtail.{Tail, Source, commit, emit, flush, activate}
use observe_agent.Logtail.Line.{Line, read_line, read_from-end, without_line_ending}
use observe_agent.Logtail.Consume.{
  begun_if_none, place_line, reject_line, single_line, multi_line, make_room, join_line, take_line,
  consume_lines,
}

read_line-end :
    (contents : Bytes) (offset max : ℕ)
    → (read_line contents offset max).complete ≡ true
    → offset < (read_line contents offset max).end
unfolding read_line
read_line-end contents offset max h = (read_from-end max (drop offset contents) [] offset false h).0

module _ (src : Source) (now : ℕ) where
  commit_forward :
      (t : Tail) (n : ℕ) (id : String) → t.read_offset ≤ (commit src t n id).1.read_offset
  unfolding commit
  commit_forward t n id = ground arith

  activate_same : (b : Bool) (t : Tail) → (activate src b t).1.read_offset ≡ t.read_offset
  unfolding activate
  activate_same true t = refl
  activate_same false t = refl

  emit_forward :
      (t : Tail) (start end : ℕ) (body : Bytes)
      → t.read_offset ≤ (emit src t start end body).1.read_offset
  unfolding emit
  emit_forward t start end body =
      let id = src.admission_id t.generation start end in
      let t1 = record t {
        admitted = record { id = id; body = body; start = start; end = end } ∷ t.admitted;
        calls = t.calls + 1;
      } in
      let c = commit_forward t1 end id in
      let s = activate_same src.has_activate (commit src t1 end id).1 in ground (arith, c, s)

  flush_forward : (t : Tail) → t.read_offset ≤ (flush src t).1.read_offset
  unfolding flush
  flush_forward t = ground (arith, emit_forward t t.pending.start t.pending.end t.pending.body)

  reject_forward : (t : Tail) (n : ℕ) → t.read_offset ≤ (reject_line src now t n).1.read_offset
  unfolding reject_line
  reject_forward t n = commit_forward (record t { rejected_local = t.rejected_local + 1 }) n ""

  single_forward :
      (t : Tail) (start end : ℕ) (text : Bytes)
      → (single_line src now t start end text).0 ≡ true
      → t.read_offset ≤ (single_line src now t start end text).1.read_offset
  unfolding single_line
  single_forward t start end text h =
      ground (arith, emit_forward t start end text, reject_forward t end)

  room_forward :
      (t : Tail) (start : ℕ) (text : Bytes)
      → (make_room src now t start text).0 ≡ true
      → t.read_offset ≤ (make_room src now t start text).1.read_offset
  unfolding make_room
  room_forward t start text h = ground (arith, flush_forward t)

  join_same :
      (t : Tail) (n : ℕ) (text : Bytes) → (join_line src now t n text).read_offset ≡ t.read_offset
  unfolding join_line
  join_same t n text = refl

  begun_same : (t : Tail) (start : ℕ) → (begun_if_none src now t start).read_offset ≡ t.read_offset
  begun_same t start = ground arith

  place_forward :
      (t : Tail) (start end : ℕ) (text : Bytes)
      → (place_line src now t start end text).0 ≡ true
      → t.read_offset ≤ (place_line src now t start end text).1.read_offset
  unfolding place_line
  place_forward t start end text h =
      let b = begun_if_none src now t start in
      let x = make_room src now b start text in
      go x.0 x.1 (room_forward b start text) (begun_same t start) h
    where
      go :
          (room : Bool) (t1 : Tail)
          → (room ≡ true → (begun_if_none src now t start).read_offset ≤ t1.read_offset)
          → (begun_if_none src now t start).read_offset ≡ t.read_offset
          → let x : Bool × Tail =
              if room then (true, join_line src now t1 end text) else (false, t1) in
            x.0 ≡ true → t.read_offset ≤ x.1.read_offset
      go true t1 f e k = omega (arith, f refl, join_same t1 end text)
      go false t1 f e k = cc

  multi_forward :
      (t : Tail) (start end : ℕ) (text : Bytes)
      → (multi_line src now t start end text).0 ≡ true
      → t.read_offset ≤ (multi_line src now t start end text).1.read_offset
  unfolding multi_line
  multi_forward t start end text h =
      let t1 = (flush src t).1 in
      ground
        (arith, flush_forward t, place_forward t1 start end text, place_forward t start end text)

  take_line_forward :
      (t : Tail) (start : ℕ) (l : Line)
      → (take_line src now t start l).0 ≡ true
      → l.end ≤ (take_line src now t start l).1.read_offset
  unfolding take_line
  take_line_forward t start l h =
      let t1 = record t { read_offset = l.end; records_read = t.records_read + 1 } in
      let text = src.to_valid_utf8 (without_line_ending l.text) in
      ground (
        arith,
        reject_forward t1 l.end,
        single_forward t1 start l.end text,
        multi_forward t1 start l.end text,
      )

  -- At the end of the file the loop stops.
  at_end :
      (fuel : ℕ) (reads : ℕ → Bool) (contents : Bytes) (t : Tail)
      → length contents ≤ t.read_offset
      → consume_lines src now fuel reads contents t ≡ (true, t)
  unfolding consume_lines
  at_end zero reads contents t h = refl
  at_end (suc fuel) reads contents t h = rw (past (ltb t.read_offset (length contents)) refl)
    where
      past :
          (b : Bool)
          → ltb t.read_offset (length contents) ≡ b
          → ltb t.read_offset (length contents) ≡ false
      past b e = ground arith

  -- If the fuel covers the bytes that are left to read, the loop of `consume` ends by itself: any two
  -- amounts of such fuel give the same result.
  pub consume_lines_enough :
      (fuel more : ℕ) (reads : ℕ → Bool) (contents : Bytes) (t : Tail)
      → length contents ≤ t.read_offset + fuel
      → length contents ≤ t.read_offset + more
      → consume_lines src now fuel reads contents t ≡ consume_lines src now more reads contents t
  unfolding consume_lines
  consume_lines_enough zero more reads contents t h k =
      sym (at_end more reads contents t (omega arith))
  consume_lines_enough (suc fuel) zero reads contents t h k =
      at_end (suc fuel) reads contents t (omega arith)
  consume_lines_enough (suc fuel) (suc more) reads contents t h k =
      let l = read_line contents t.read_offset src.max_line_bytes in
      let x = take_line src now t t.read_offset l in
      elim (Bool-cases (not (reads t.read_offset) || not l.complete)) [
        | inl f ↦ rw f
        | inr f ↦ elim (Bool-cases x.0) [
          | inr g ↦ rw (f, g)
          | inl g ↦
              let after =
                read_line-end contents t.read_offset src.max_line_bytes
                  (complete (reads t.read_offset) l.complete f) in
              let forward = take_line_forward t t.read_offset l g in
              rw (
                f,
                g,
                consume_lines_enough fuel more reads contents x.1 (omega (arith, after, forward))
                    (omega (arith, after, forward)),
              )
        ]
      ]
    where
      complete : (r c : Bool) → (not r || not c) ≡ false → c ≡ true
      complete r c e = ground arith
