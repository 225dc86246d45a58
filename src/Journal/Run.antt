-- ===== src/Journal/Run.antt =====
-- internal/journaltail/reader_linux.go: `Start` and `run`.
use observe_agent.Base.{
  ◌+◌, ◌/◌, String, Bool, false, not, ◌&&◌, ◌||◌, List, [], ◌∷◌, str_eq, ◌==◌, if◌then◌else◌, Bytes,
  ℤ, pos, negsuc,
}
use observe_agent.Queue.Files.{Faults, Io, ok, err, crashed}
use observe_agent.Config.{JournaldLogSource}
use observe_agent.Journal.{
  Outside, Reader, Checkpoint, Result, done, failed, died, no_checkpoint, save_checkpoint,
  load_checkpoint, consume, go_on,
}

-- One run of journalctl: whether it starts, its lines, whether the scanner ends without an error,
-- whether the session ends with a permission error, and whether the context has ended then.
pub record Session : Type 0 where
  pub started : Bool
  pub lines : List Bytes
  pub whole : Bool
  pub permission : Bool
  pub ended : Bool

module _ (out : Outside) (env : Faults) where
  abbrev pub is_zero : ℤ → Bool
  is_zero (pos n) = n == 0
  is_zero (negsuc n) = false

  -- The end of `Start`: the activation of the last admission, and the search for journalctl.
  unfoldable pub recovered : Bool → Reader → Result × Reader
  recovered found q =
      if out.has_activate && not (str_eq q.cp.admission_id "")
      then (if out.activates q.calls
          then (if found then done else failed, record q { calls = q.calls + 1 })
          else (failed, record q { calls = q.calls + 1 }))
      else (if found then done else failed, q)

  abbrev pub watermarked : Bool → Io (Unit {0}) → Reader → Result × Reader
  watermarked found (ok _) q = recovered found q
  watermarked found (err e) q = (failed, q)
  watermarked found crashed q = (died, q)

  -- `Start` from the loaded checkpoint on; a reader that starts at the end saves the time first.
  unfoldable pub resumed : String → Bool → Io Checkpoint → Reader → Result × Reader
  resumed start_at found (err e) q = (failed, record q { cp = no_checkpoint })
  resumed start_at found crashed q = (died, q)
  resumed start_at found (ok cp) q =
      let mark : Checkpoint = record cp {
        since_micros = pos (out.now q.calls / 1000);
        updated_at = out.now q.calls;
      } in
      let (x, d) = save_checkpoint out env mark q.dir in
      if str_eq start_at "end" && str_eq cp.cursor "" && is_zero cp.since_micros
      then watermarked found x (record q { dir = d; cp = mark })
      else recovered found (record q { cp = cp })

  -- `Start` up to the goroutine; `prepared` says whether the directory passes the checks, and
  -- `found` whether journalctl is found.
  unfoldable pub start : JournaldLogSource → Bool → Bool → Reader → Result × Reader
  start cfg prepared found q =
      let (x, d) = load_checkpoint out env q.dir in
      if not cfg.enabled || not prepared
      then (failed, q)
      else resumed cfg.start_at found x (record q { dir = d })

  -- The counters behind one session of `run`.
  abbrev pub counted : Bool → Reader → Reader
  counted permission q = record q {
    reader_errors = q.reader_errors + 1;
    permission_errors = if permission then q.permission_errors + 1 else q.permission_errors;
  }

  abbrev pub session_end : Session → Result × Reader → Result × Reader
  session_end s (died, q) = (died, q)
  session_end s (done, q) = if s.ended then (failed, q) else (done, counted s.permission q)
  session_end s (failed, q) = if s.ended then (failed, q) else (done, counted s.permission q)

  -- The body of `run`.
  unfoldable pub session : Session → Reader → Result × Reader
  session s q =
      if s.started
      then session_end s (consume out env s.lines s.whole q)
      else session_end s (failed, q)

  -- `run`, by the sessions until the context ends.
  unfoldable pub run : List Session → Reader → Result × Reader
  run [] q = (done, q)
  run (s ∷ ss) q = let here = session s q in let rest = run ss here.1 in go_on out env here rest
