-- ===== src/Queue/Logs/Replaced.antt =====
-- internal/queue/logs_disk_linux.go, `writeReplacement`: what it leaves in the directory.
use observe_agent.Base.{ℕ, ◌≡◌, refl, ◌∙◌, ◌⊎◌, inl, inr, Option, some, arith, Bytes}
use observe_agent.Queue.Files.{File, Dir, rec, Faults, ok}
use observe_agent.Queue.Files.Laws.{control-rec, rec-rec, name_eq_refl}
use observe_agent.Queue.Files.Steps.{IsDurable, settled_file}
use observe_agent.Queue.Files.Install.{Either, Either-after, replaced-after, created_install-Triple}
use observe_agent.Queue.Logs.{write_replacement, replace_pending}
use observe_agent.Queue.Logs.Held.{Settled}
use observe_agent.Queue.Logs.Mark.{AgreeBut}

module _ (env : Faults) (n : ℕ) (b : Bytes) (d : Dir) (settled : Settled d) where
  pub replacement-Either :
      (m : ℕ) → Either (rec n) b (rec m) (d.files (rec m)) (write_replacement env (rec n) b d).1
  unfolding write_replacement
  replacement-Either m =
      Either-after (rec n) b (rec m) (d.files (rec m)) _
        (created_install-Triple env replace_pending (rec n) b (rec m) (d.files (rec m)) (settled m)
          (control-rec ".replace.pending" m) (control-rec ".replace.pending" n))
        d refl

  pub replacement-ok :
      (write_replacement env (rec n) b d).0 ≡ ok tt
      → (write_replacement env (rec n) b d).1.files (rec n) ≡ some (settled_file b)
  unfolding write_replacement
  replacement-ok h =
      replaced-after (rec n) b (rec n) (d.files (rec n)) _
        (created_install-Triple env replace_pending (rec n) b (rec n) (d.files (rec n)) (settled n)
          (control-rec ".replace.pending" n) (control-rec ".replace.pending" n))
        d refl h
      ∙ rw name_eq_refl

  pub replacement-Settled : Settled (write_replacement env (rec n) b d).1
  replacement-Settled m = go (d.files (rec m)) (settled m) (replacement-Either m)
    where
      go :
          (o : Option File)
          → IsDurable o
          → Either (rec n) b (rec m) o (write_replacement env (rec n) b d).1
          → IsDurable ((write_replacement env (rec n) b d).1.files (rec m))
      go o h (inl e) = rw e h
      go o h (inr e) = rw e (ground arith)

  pub replacement-AgreeBut : AgreeBut n d (write_replacement env (rec n) b d).1
  replacement-AgreeBut m ne = go (replacement-Either m)
    where
      go :
          Either (rec n) b (rec m) (d.files (rec m)) (write_replacement env (rec n) b d).1
          → (write_replacement env (rec n) b d).1.files (rec m) ≡ d.files (rec m)
      go (inl e) = e
      go (inr e) = e ∙ rw (rec-rec, ne)

  -- At the name itself the file is the old one or the new one.
  pub replacement_at :
      ((write_replacement env (rec n) b d).1.files (rec n) ≡ d.files (rec n))
      ⊎ ((write_replacement env (rec n) b d).1.files (rec n) ≡ some (settled_file b))
  replacement_at = go (replacement-Either n)
    where
      go :
          Either (rec n) b (rec n) (d.files (rec n)) (write_replacement env (rec n) b d).1
          → ((write_replacement env (rec n) b d).1.files (rec n) ≡ d.files (rec n))
            ⊎ ((write_replacement env (rec n) b d).1.files (rec n) ≡ some (settled_file b))
      go (inl e) = inl e
      go (inr e) = inr (e ∙ rw name_eq_refl)
