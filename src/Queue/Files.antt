-- ===== src/Queue/Files.antt =====
-- The file operations of internal/queue, on one directory, with faults and crashes.
pub mod Laws
pub mod Logic
pub mod Steps
pub mod AtName
pub mod Install
pub mod Keeps
use observe_agent.Base.{
  ℕ, ◌+◌, String, Bool, true, false, ◌&&◌, Option, none, some, [], take, length, Bytes, ◌==◌, leb,
  str_eq, if◌then◌else◌,
}

-- `rec n` and `bad n` stand for the names that "%020d.rec" (or ".lrec") and "%020d.bad" print.
pub data Name : Type 0 where
  control : String → Name
  rec bad : ℕ → Name

unfoldable pub name_eq : Name → Name → Bool
name_eq (control s) (control t) = str_eq s t
name_eq (rec m) (rec n) = m == n
name_eq (bad m) (bad n) = m == n
name_eq _ _ = false

abbrev pub manifest : Name
manifest = control "manifest.json"

abbrev pub backup : Name
backup = control "manifest.backup"

abbrev pub pending : Name
pending = control ".pending"

-- `exclusive`: a regular file of the current user with mode 0600 and one link.
-- `synced`: an fsync has made the contents durable.
pub record File : Type 0 where
  pub contents : Bytes
  pub exclusive : Bool
  pub synced : Bool

abbrev pub Files : Type 0
Files = Name → Option File

abbrev pub update : Files → Name → Option File → Files
update fs k v j = if name_eq k j then v else fs j

-- The directory, and how many file operations were made on it.
pub record Dir : Type 0 where
  pub files : Files
  pub ticks : ℕ

pub data Fault : Type 0 where
  pass fail crash : Fault

-- What happens to each file operation, by its number, and how many bytes of a file that was not
-- synced are left by a failed write or by a crash.
pub record Faults : Type 0 where
  pub fault : ℕ → Fault
  pub cut : ℕ → ℕ

-- `conflict`: the program's own error on what the control files hold.
pub data IoError : Type 0 where
  io_error not_exist already_exists unsafe_file conflict : IoError

-- After `crashed` nothing more is done: no deferred call runs.
pub data Io {ℓ} (A : Type ℓ) : Type ℓ where
  ok : A → Io A
  err : IoError → Io A
  crashed : Io A

abbrev pub M {ℓ} : Type ℓ → Type ℓ
M A = Dir → Io A × Dir

abbrev pub continue {ℓ κ} :
    {A : Type ℓ} {B : Type κ} → Io A → (A → Dir → Io B × Dir) → Dir → Io B × Dir
continue (ok a) f d = f a d
continue (err e) f d = (err e, d)
continue crashed f d = (crashed, d)

infixl 5 ◌>>=◌ ◌>>◌
abbrev pub ◌>>=◌ {ℓ κ} :
    {A : Type ℓ} {B : Type κ} → (Dir → Io A × Dir) → (A → Dir → Io B × Dir) → Dir → Io B × Dir
◌>>=◌ m f d = let (r, d') = m d in continue r f d'

abbrev pub ◌>>◌ {ℓ κ} :
    {A : Type ℓ} {B : Type κ} → (Dir → Io A × Dir) → (Dir → Io B × Dir) → Dir → Io B × Dir
◌>>◌ m k d = let (r, d') = m d in continue r (λ _. k) d'

-- The error as a value.
abbrev pub caught {ℓ} : {A : Type ℓ} → Io A → Io (Option IoError)
caught (ok _) = ok none
caught (err e) = ok (some e)
caught crashed = crashed

abbrev pub attempt {ℓ} : {A : Type ℓ} → (Dir → Io A × Dir) → M (Option IoError)
attempt m d = let (r, d') = m d in (caught r, d')

abbrev pub rethrow : Option IoError → M (Unit {0})
rethrow none d = (ok tt, d)
rethrow (some e) d = (err e, d)

-- A result with its error as a value.
pub data Answer {ℓ} (A : Type ℓ) : Type ℓ where
  got : A → Answer A
  refused : IoError → Answer A

abbrev pub answered {ℓ} : {A : Type ℓ} → Io A → Io (Answer A)
answered (ok a) = ok (got a)
answered (err e) = ok (refused e)
answered crashed = crashed

abbrev pub ask {ℓ} : {A : Type ℓ} → (Dir → Io A × Dir) → M (Answer A)
ask m d = let (r, d') = m d in (answered r, d')

abbrev pub give {ℓ} : {A : Type ℓ} → A → M A
give a d = (ok a, d)

abbrev pub raise {ℓ} : {A : Type ℓ} → IoError → M A
raise e d = (err e, d)

-- A deferred call: it runs after success and error, and its own error is dropped.
abbrev pub after_defer {ℓ} : {A : Type ℓ} → Io A → Io (Unit {0}) → Io A
after_defer crashed _ = crashed
after_defer _ crashed = crashed
after_defer r _ = r

abbrev skip_crashed {ℓ} : {A : Type ℓ} → Io A → M (Unit {0}) → M (Unit {0})
skip_crashed crashed m d = (crashed, d)
skip_crashed _ m d = m d

abbrev pub deferring {ℓ} : {A : Type ℓ} → M (Unit {0}) → M A → M A
deferring cleanup m d =
    let (r, d1) = m d in let (c, d2) = skip_crashed r cleanup d1 in (after_defer r c, d2)

-- What a crash leaves of the files that were not synced.
abbrev pub lose_file : ℕ → File → File
lose_file k f = if f.synced then f else record f { contents = take k f.contents }

abbrev pub lost : ℕ → Option File → Option File
lost k none = none
lost k (some f) = some (lose_file k f)

abbrev pub lose : ℕ → Files → Files
lose k fs n = lost k (fs n)

-- What the operations do, by the file that they find.
abbrev pub absent : Option File → Io (Unit {0})
absent none = ok tt
absent (some _) = err already_exists

abbrev pub present : Option File → Io (Unit {0})
present none = err not_exist
present (some _) = ok tt

abbrev pub created : Name → Option File → Files → Files
created n none fs = update fs n (some (record { contents = []; exclusive = true; synced = false }))
created n (some _) fs = fs

abbrev pub truncated : Name → Option File → Files → Files
truncated n none fs =
    update fs n (some (record { contents = []; exclusive = true; synced = false }))
truncated n (some f) fs = update fs n (some (record f { contents = []; synced = false }))

abbrev pub filled : Name → Bytes → Option File → Files → Files
filled n b none fs = fs
filled n b (some f) fs = update fs n (some (record f { contents = b; synced = false }))

abbrev pub settled : Name → Option File → Files → Files
settled n none fs = fs
settled n (some f) fs = update fs n (some (record f { synced = true }))

abbrev pub moved : Name → Name → Option File → Files → Files
moved a b none fs = fs
moved a b (some f) fs = update (update fs a none) b (some f)

abbrev pub size_of : Option File → Io ℕ
size_of none = err not_exist
size_of (some f) = ok (length f.contents)

abbrev pub readable : ℕ → Option File → Io Bytes
readable limit none = err not_exist
readable limit (some f) =
    if f.exclusive && leb (length f.contents) limit then ok f.contents else err unsafe_file

abbrev pub unchanged : Files → Files
unchanged fs = fs

-- A file operation under a fault: what it returns, what it does, and what a failed one leaves.
abbrev pub outcome {ℓ} :
    {A : Type ℓ} → Fault → ℕ → (Files → Io A) → (Files → Files) → (Files → Files) → M A
outcome pass k result done failed d =
    (result d.files, record { files = done d.files; ticks = d.ticks + 1 })
outcome fail k result done failed d =
    (err io_error, record { files = failed d.files; ticks = d.ticks + 1 })
outcome crash k result done failed d =
    (crashed, record { files = lose k (failed d.files); ticks = d.ticks + 1 })

module _ (env : Faults) where
  abbrev pub perform {ℓ} : {A : Type ℓ} → (Files → Io A) → (Files → Files) → (Files → Files) → M A
  perform result done failed d = outcome (env.fault d.ticks) (env.cut d.ticks) result done failed d

  -- os.OpenFile with O_CREATE|O_EXCL and mode 0600.
  abbrev pub create : Name → M (Unit {0})
  create n = perform (λ fs. absent (fs n)) (λ fs. created n (fs n) fs) unchanged

  -- os.OpenFile with O_CREATE|O_TRUNC.
  abbrev pub open_truncated : Name → M (Unit {0})
  open_truncated n = perform (λ _. ok tt) (λ fs. truncated n (fs n) fs) unchanged

  -- f.Write to a file that was just opened empty: a failed write leaves a part.
  abbrev pub write_data : Name → Bytes → M (Unit {0})
  write_data n b d =
      perform (λ _. ok tt) (λ fs. filled n b (fs n) fs)
        (λ fs. filled n (take (env.cut d.ticks) b) (fs n) fs) d

  -- f.Sync
  abbrev pub sync : Name → M (Unit {0})
  sync n = perform (λ _. ok tt) (λ fs. settled n (fs n) fs) unchanged

  -- f.Close, lock.Close; and the open, Sync and Close of the directory in syncDir.
  abbrev pub close_file : M (Unit {0})
  close_file = perform (λ _. ok tt) unchanged unchanged

  abbrev pub sync_dir : M (Unit {0})
  sync_dir = perform (λ _. ok tt) unchanged unchanged

  -- os.Rename replaces the target.
  abbrev pub rename : Name → Name → M (Unit {0})
  rename a b = perform (λ fs. present (fs a)) (λ fs. moved a b (fs a) fs) unchanged

  abbrev pub remove : Name → M (Unit {0})
  remove n = perform (λ fs. present (fs n)) (λ fs. update fs n none) unchanged

  -- os.Stat, for the size.
  abbrev pub stat : Name → M ℕ
  stat n = perform (λ fs. size_of (fs n)) unchanged unchanged

  -- `read`: the bytes of a file that is safe and within the limit.
  abbrev pub read : Name → ℕ → M Bytes
  read n limit = perform (λ fs. readable limit (fs n)) unchanged unchanged

  -- The bytes are written to a file that was just opened empty, synced, and renamed to `name`.
  abbrev pub install : Name → Name → Bytes → M (Unit {0})
  install tmp name b = do
    written ← attempt (do write_data tmp b; sync tmp)
    closed ← attempt close_file
    rethrow written
    rethrow closed
    rename tmp name
    sync_dir
