-- ===== src/Queue/Files/Steps.antt =====
-- What each file operation does to one name of the directory.
use observe_agent.Base.{
  ℕ, ◌+◌, ◌≡◌, refl, Option, none, some, Bool, true, false, Bytes, [], if◌then◌else◌, take,
}
use observe_agent.Queue.Files.{
  Name, name_eq, File, Files, Dir, Faults, Fault, pass, fail, crash, Io, ok, outcome, lose, update,
  create, write_data, sync, close_file, sync_dir, rename, remove, created, filled, settled, absent,
  moved, unchanged, present,
}
use observe_agent.Queue.Files.Laws.{name_eq_refl}
use observe_agent.Queue.Files.Logic.{Assertion, Ensures, Triple}

-- A file that a crash cannot cut, or none.
abbrev pub is_durable : Option File → Bool
is_durable none = true
is_durable (some f) = f.synced

abbrev pub IsDurable : Option File → Type 0
IsDurable o = is_durable o ≡ true

-- The name `k` has exactly this file.
abbrev pub Has : Name → Option File → Assertion
Has k o d = d.files k ≡ o

abbrev pub HasBoth : Name → Option File → Name → Option File → Assertion
HasBoth k o tmp p d = Has k o d × Has tmp p d

pub lose-durable :
    (n : ℕ) (fs : Files) (k : Name) (o : Option File) → IsDurable o → fs k ≡ o → lose n fs k ≡ o
lose-durable n fs k none s h = rw h
lose-durable n fs k (some f) s h = rw (h, s)

pub outcome-Ensures :
    {A : Type 0} (x : Fault) (k : ℕ) (result : Files → Io A) (done failed : Files → Files) (d : Dir)
    (Q : A → Assertion) (E C : Assertion)
    → Ensures Q E C (result d.files) (record { files = done d.files; ticks = d.ticks + 1 })
    → E (record { files = failed d.files; ticks = d.ticks + 1 })
    → C (record { files = lose k (failed d.files); ticks = d.ticks + 1 })
    → Ensures Q E C (outcome x k result done failed d).0 (outcome x k result done failed d).1
outcome-Ensures pass k result done failed d Q E C q e c = q
outcome-Ensures fail k result done failed d Q E C q e c = e
outcome-Ensures crash k result done failed d Q E C q e c = c

update_ne :
    (fs : Files) (a k : Name) (v : Option File) → name_eq a k ≡ false → update fs a v k ≡ fs k
update_ne fs a k v h = rw h

update_self : (fs : Files) (a : Name) (v : Option File) → update fs a v a ≡ v
update_self fs a v = rw name_eq_refl

abbrev pub unsynced : Bytes → File
unsynced b = record { contents = b; exclusive = true; synced = false }

abbrev pub settled_file : Bytes → File
settled_file b = record { contents = b; exclusive = true; synced = true }

-- The temporary file `tmp`, seen together with another name `k` that has a durable file or none.
module _ (env : Faults) (tmp k : Name) (o : Option File) (durable : IsDurable o)
    (ne : name_eq tmp k ≡ false) where
  abbrev With : Option File → Assertion
  With = HasBoth k o tmp

  created-Has : (fs : Files) (p : Option File) → fs k ≡ o → created tmp p fs k ≡ o
  created-Has fs none h = rw ne h
  created-Has fs (some f) h = h

  filled-Has : (fs : Files) (b : Bytes) (p : Option File) → fs k ≡ o → filled tmp b p fs k ≡ o
  filled-Has fs b none h = h
  filled-Has fs b (some f) h = rw ne h

  settled-Has : (fs : Files) (p : Option File) → fs k ≡ o → settled tmp p fs k ≡ o
  settled-Has fs none h = h
  settled-Has fs (some f) h = rw ne h

  lose-Has : (n : ℕ) (fs : Files) → fs k ≡ o → lose n fs k ≡ o
  lose-Has n fs h = lose-durable n fs k o durable h

  absent-Ensures :
      (p : Option File) (d : Dir)
      → d.files tmp ≡ p
      → d.files k ≡ o
      → Ensures
          (λ _. With (some (unsynced [])))
          (Has k o)
          (Has k o)
          (absent p)
          (record { files = created tmp p d.files; ticks = d.ticks + 1 })
  absent-Ensures none d e h = (rw ne h, rw name_eq_refl)
  absent-Ensures (some f) d e h = h

  pub create-Triple :
      Triple (Has k o) (create env tmp) (λ _. With (some (unsynced []))) (Has k o) (Has k o)
  create-Triple = record {
    at = λ d h.
        outcome-Ensures (env.fault d.ticks) (env.cut d.ticks) (λ fs. absent (fs tmp))
          (λ fs. created tmp (fs tmp) fs) unchanged d (λ _. With (some (unsynced []))) (Has k o)
          (Has k o) (absent-Ensures (d.files tmp) d refl h) h
          (lose-Has (env.cut d.ticks) d.files h);
  }

  pub write_data-Triple :
      (b : Bytes)
      → Triple
          (With (some (unsynced [])))
          (write_data env tmp b)
          (λ _. With (some (unsynced b)))
          (Has k o)
          (Has k o)
  write_data-Triple b = record {
    at = λ d h.
        let part = take (env.cut d.ticks) b in
        outcome-Ensures (env.fault d.ticks) (env.cut d.ticks) (λ _. ok tt)
          (λ fs. filled tmp b (fs tmp) fs) (λ fs. filled tmp part (fs tmp) fs) d
          (λ _. With (some (unsynced b))) (Has k o) (Has k o)
          (filled-Has d.files b (d.files tmp) h.0, rw (h.1, name_eq_refl))
          (filled-Has d.files part (d.files tmp) h.0)
          (lose-Has (env.cut d.ticks) (filled tmp part (d.files tmp) d.files)
            (filled-Has d.files part (d.files tmp) h.0));
  }

  pub sync-Triple :
      (b : Bytes)
      → Triple
          (With (some (unsynced b)))
          (sync env tmp)
          (λ _. With (some (settled_file b)))
          (Has k o)
          (Has k o)
  sync-Triple b = record {
    at = λ d h.
        outcome-Ensures (env.fault d.ticks) (env.cut d.ticks) (λ _. ok tt)
          (λ fs. settled tmp (fs tmp) fs) unchanged d (λ _. With (some (settled_file b))) (Has k o)
          (Has k o) (settled-Has d.files (d.files tmp) h.0, rw (h.1, name_eq_refl)) h.0
          (lose-Has (env.cut d.ticks) d.files h.0);
  }

  -- Removing the temporary file, whatever else holds.
  pub remove-Triple : Triple (Has k o) (remove env tmp) (λ _. Has k o) (Has k o) (Has k o)
  remove-Triple = record {
    at = λ d h.
        outcome-Ensures (env.fault d.ticks) (env.cut d.ticks) (λ fs. present (fs tmp))
          (λ fs. update fs tmp none) unchanged d (λ _. Has k o) (Has k o) (Has k o)
          (either (d.files tmp) (record { files = update d.files tmp none; ticks = d.ticks + 1 })
            (rw ne h))
          h (lose-Has (env.cut d.ticks) d.files h);
  }
    where
      either :
          (p : Option File) (d : Dir)
          → d.files k ≡ o
          → Ensures (λ _. Has k o) (Has k o) (Has k o) (present p) d
      either none d h = h
      either (some f) d h = h

  -- The rename puts the synced file in place of `name`, and touches nothing else.
  pub rename-Triple :
      (name : Name) (b : Bytes)
      → name_eq tmp name ≡ false
      → Triple
          (With (some (settled_file b)))
          (rename env tmp name)
          (λ _. Has k (if name_eq name k then some (settled_file b) else o))
          (Has k o)
          (Has k o)
  rename-Triple name b other = record {
    at = λ d h.
        outcome-Ensures (env.fault d.ticks) (env.cut d.ticks) (λ fs. present (fs tmp))
          (λ fs. moved tmp name (fs tmp) fs) unchanged d
          (λ _. Has k (if name_eq name k then some (settled_file b) else o)) (Has k o) (Has k o)
          (rw (h.1, ne, h.0)) h.0 (lose-Has (env.cut d.ticks) d.files h.0);
  }

-- An operation that changes no file keeps what is known of them, and a crash keeps a durable one.
module _ (env : Faults) (k : Name) (o : Option File) (durable : IsDurable o) where
  pub sync_dir-Triple : Triple (Has k o) (sync_dir env) (λ _. Has k o) (Has k o) (Has k o)
  sync_dir-Triple = record {
    at = λ d h.
        outcome-Ensures (env.fault d.ticks) (env.cut d.ticks) (λ _. ok tt) unchanged unchanged d
          (λ _. Has k o) (Has k o) (Has k o) h h
          (lose-durable (env.cut d.ticks) d.files k o durable h);
  }

  pub close_file-Triple :
      (S : Files → Type 0)
      → ((fs : Files) → S fs → fs k ≡ o)
      → Triple (λ d. S d.files) (close_file env) (λ _ d. S d.files) (λ d. S d.files) (Has k o)
  close_file-Triple S s = record {
    at = λ d h.
        outcome-Ensures (env.fault d.ticks) (env.cut d.ticks) (λ _. ok tt) unchanged unchanged d
          (λ _ d'. S d'.files) (λ d'. S d'.files) (Has k o) h h
          (lose-durable (env.cut d.ticks) d.files k o durable (s d.files h));
  }
