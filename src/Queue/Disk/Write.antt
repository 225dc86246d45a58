-- ===== src/Queue/Disk/Write.antt =====
-- internal/queue/disk_linux.go, `write`: what it leaves in the directory on every outcome.
use observe_agent.Base.{◌≡◌, inl, inr, false, Option, some, [], Bytes}
use observe_agent.Queue.Files.{Name, pending, File, Faults, name_eq, remove}
use observe_agent.Queue.Files.Logic.{
  Assertion, Triple, Triple-bind, Triple-deferring, Triple-weaken, Triple-⊎,
}
use observe_agent.Queue.Files.Steps.{
  IsDurable, Has, unsynced, HasBoth, create-Triple, remove-Triple,
}
use observe_agent.Queue.Files.Install.{replaced, replaced-IsDurable, old_errors, install-Triple}
use observe_agent.Queue.Disk.{write}
pub use observe_agent.Queue.Files.Install.{Either, replaced}

module _ (env : Faults) (name : Name) (b : Bytes) (k : Name) (o : Option File)
    (durable : IsDurable o) (ne : name_eq pending k ≡ false)
    (other : name_eq pending name ≡ false) where
  abbrev Before : Assertion
  Before = Has k o

  abbrev After : Assertion
  After = Has k (replaced name b k o)

  abbrev Between : Assertion
  Between = Either name b k o

  removed : Triple After (remove env pending) (λ _. After) After After
  removed =
      remove-Triple env pending k (replaced name b k o)
        (replaced-IsDurable env pending name b k o durable ne other) ne

  removed_new : Triple After (remove env pending) (λ _. After) After Between
  removed_new =
      Triple-weaken (λ _. After) (λ _. After) After After After Between (λ d h. h) (λ a d h. h)
        (λ d h. h) (λ d h. inr h) removed

  removed_mixed : Triple Between (remove env pending) (λ _. Between) Between Between
  removed_mixed =
      Triple-⊎
        (Triple-weaken (λ _. Before) (λ _. Between) Before Between Before Between (λ d h. h)
          (λ a d h. inl h) (λ d h. inl h) (λ d h. inl h) (remove-Triple env pending k o durable ne))
        (Triple-weaken (λ _. After) (λ _. Between) After Between After Between (λ d h. h)
          (λ a d h. inr h) (λ d h. inr h) (λ d h. inr h) removed)

  -- `write` leaves the old file at `k` or, at `name`, exactly the bytes it was given; without an error
  -- the latter.
  pub write-Triple : Triple Before (write env name b) (λ _. After) Between Between
  unfolding write
  write-Triple =
      Triple-bind (λ _. HasBoth k o pending (some (unsynced [])))
        (old_errors env pending name b k o durable ne other Before
          (λ _. HasBoth k o pending (some (unsynced [])))
          (create-Triple env pending k o durable ne))
        (λ _.
          Triple-deferring After Between Between After Between
            (install-Triple env pending name b k o durable ne other) removed_new removed_mixed)
