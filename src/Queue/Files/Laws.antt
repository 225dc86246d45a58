-- ===== src/Queue/Files/Laws.antt =====
-- When two file names are the same.
use observe_agent.Base.{ℕ, String, ◌≡◌, true, false, arith, eq_iff, refl, ap, ◌==◌}
use observe_agent.Queue.Files.{Name, control, rec, bad, pending, backup, manifest, name_eq}

pub name_eq→≡ : (a b : Name) → name_eq a b ≡ true → a ≡ b
unfolding name_eq
name_eq→≡ (control s) (control t) h = ap control ((eq_iff s t).0 h)
name_eq→≡ (rec m) (rec n) h = ground arith
name_eq→≡ (bad m) (bad n) h = ground arith
name_eq→≡ (control s) (rec n) h = cc
name_eq→≡ (control s) (bad n) h = cc
name_eq→≡ (rec m) (control s) h = cc
name_eq→≡ (rec m) (bad n) h = cc
name_eq→≡ (bad m) (control s) h = cc
name_eq→≡ (bad m) (rec n) h = cc

pub name_eq_refl : (a : Name) → name_eq a a ≡ true
unfolding name_eq
name_eq_refl (control s) = (eq_iff s s).1 refl
name_eq_refl (rec n) = ground arith
name_eq_refl (bad n) = ground arith

pub pending-backup : name_eq pending backup ≡ false
unfolding name_eq
pending-backup = refl

pub pending-manifest : name_eq pending manifest ≡ false
unfolding name_eq
pending-manifest = refl

-- Names of the three kinds differ.
pub control-rec : (s : String) (n : ℕ) → name_eq (control s) (rec n) ≡ false
unfolding name_eq
control-rec s n = refl

pub rec-bad : (m n : ℕ) → name_eq (rec m) (bad n) ≡ false
unfolding name_eq
rec-bad m n = refl

pub bad-rec : (m n : ℕ) → name_eq (bad m) (rec n) ≡ false
unfolding name_eq
bad-rec m n = refl

pub rec-rec : (m n : ℕ) → name_eq (rec m) (rec n) ≡ (m == n)
unfolding name_eq
rec-rec m n = refl
