-- ===== src/Logtail/Tests.antt =====
-- Runs of the tailer, and its theorems at concrete inputs.
use observe_agent.Base.{◌≡◌, refl, true, false, none, [], ◌∷◌, map, arith, Bytes}
use observe_agent.Logtail.{Tail, Source, Record, no_pending, commit, emit, flush, activate}
use observe_agent.Logtail.Line.{read_line, read_from, without_line_ending}
use observe_agent.Logtail.Consume.{
  consume, consume_lines, take_line, single_line, multi_line, reject_line, place_line, make_room,
  join_line, restart,
}
use observe_agent.Logtail.Covers.{IsTracked, from_here, here, consume_lines-IsTracked}
use observe_agent.Logtail.Fuel.{consume_lines_enough}

-- One record for each line of at most four bytes.
abbrev plain : Source
plain = record {
  max_line_bytes = 4;
  multiline = false;
  max_lines = 9;
  max_bytes = 4;
  flush_timeout = 100;
  has_activate = true;
  starts = λ _. false;
  to_valid_utf8 = λ b. b;
  admission_id = λ _ _ _. "id";
  admits = λ _. true;
  saves = λ _. true;
  activates = λ _. true;
}

-- Lines are joined until a timeout.
abbrev joined : Source
joined = record plain { multiline = true }

-- The lines "ab" and "c", a blank one, and one without an end.
abbrev contents : Bytes
contents = 97 ∷ 98 ∷ 10 ∷ 99 ∷ 10 ∷ 10 ∷ 100 ∷ []

-- The lines "ab" and "cdefgh".
abbrev oversized : Bytes
oversized = 97 ∷ 98 ∷ 10 ∷ 99 ∷ 100 ∷ 101 ∷ 102 ∷ 103 ∷ 104 ∷ 10 ∷ []

abbrev opened : Tail
opened = record {
  generation = 0;
  committed = 0;
  read_offset = 0;
  pending = no_pending;
  checkpoint = none;
  admitted = [];
  calls = 0;
  records_read = 0;
  rejected_local = 0;
  checkpoint_errors = 0;
  multiline_flushes = 0;
}

two_admitted :
    let t = consume plain 0 (λ _. true) contents opened in
    (t.committed ≡ 6)
    × (map (λ (r : Record). r.body) t.admitted ≡ (99 ∷ []) ∷ (97 ∷ 98 ∷ []) ∷ [])
    × (t.rejected_local ≡ 1)
unfolding consume restart consume_lines take_line single_line reject_line flush emit activate commit
    read_line read_from without_line_ending
two_admitted = (refl, refl, refl)

-- The checkpoint passes the pending line "ab" with the oversized one behind it, though nothing was
-- admitted.
oversized_passes_pending :
    let t = consume joined 0 (λ _. true) oversized opened in
    (t.committed ≡ 10) × (t.admitted ≡ []) × (t.pending.body ≡ 97 ∷ 98 ∷ [])
unfolding consume restart consume_lines take_line multi_line place_line make_room join_line
    reject_line flush emit activate commit read_line read_from without_line_ending
oversized_passes_pending = (refl, refl, refl)

opened-IsTracked : IsTracked plain contents 0 opened
opened-IsTracked = record { covered = from_here; passed = here; saved = λ c x. cc }

consume_lines-IsTracked_example :
    IsTracked plain contents 0 (consume_lines plain 0 7 (λ _. true) contents opened).1
consume_lines-IsTracked_example =
    consume_lines-IsTracked plain contents 0 0 7 (λ _. true) opened refl opened-IsTracked

consume_lines_enough_example :
    consume_lines joined 0 10 (λ _. true) oversized opened
    ≡ consume_lines joined 0 99 (λ _. true) oversized opened
consume_lines_enough_example =
    consume_lines_enough joined 0 10 99 (λ _. true) oversized opened (omega arith) (omega arith)
