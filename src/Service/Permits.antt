-- ===== src/Service/Permits.antt =====
-- The permits of src/service.rs that its tasks hold.
use sim_core.Prelude.{
  ℕ, zero, suc, ◌+◌, ◌≡◌, refl, subst, ap, Bool, true, false, List, [], ◌∷◌, ◌++◌, some, inl, inr,
  Bool-cases, arith, set, get_elem?, if◌then◌else◌,
}
use mathlib.Core.Option.{some-injective}
use sim_core.Prelude.Map.{nat_key}
use sim_core.Job.{Phase, admitted, withdrawing, withdrawn, cleared, executing, Task}

abbrev pub count : Bool → ℕ
count true = 1
count false = 0

module _ {F : Type 0} where
  -- A task that holds a permit.
  abbrev pub holds : Phase F → Bool
  holds admitted = true
  holds withdrawing = true
  holds withdrawn = true
  holds cleared = true
  holds executing = true
  holds _ = false

  abbrev pub holders : List (Task F) → ℕ
  holders [] = 0
  holders (task ∷ tasks) = let rest = holders tasks in if holds task.phase then suc rest else rest

  pub holders-set :
      (tasks : List (Task F)) (index : ℕ) (task new : Task F)
      → get_elem? tasks index ≡ some task
      → holders (set tasks index new) + count (holds task.phase)
        ≡ holders tasks + count (holds new.phase)
  holders-set [] index task new h = cc
  holders-set (first ∷ tasks) zero task new h =
      subst
        (λ t.
          holders (new ∷ tasks) + count (holds t.phase)
          ≡ holders (first ∷ tasks) + count (holds new.phase))
        (some-injective first task h)
        (swapped (holds first.phase) (holds new.phase) (holders tasks))
    where
      swapped :
          (a b : Bool) (n : ℕ)
          → (if b then suc n else n) + count a ≡ (if a then suc n else n) + count b
      swapped true true n = refl
      swapped true false n = omega arith
      swapped false true n = omega arith
      swapped false false n = refl
  holders-set (first ∷ tasks) (suc index) task new h =
      let rest = holders-set tasks index task new h in
      elim (Bool-cases (holds first.phase)) [
        | inl on ↦ rw on (omega (arith, rest))
        | inr off ↦ rw off rest
      ]

  pub holders-append :
      (tasks : List (Task F)) (new : Task F)
      → holds new.phase ≡ false
      → holders (tasks ++ new ∷ []) ≡ holders tasks
  holders-append [] new h = rw h refl
  holders-append (first ∷ tasks) new h =
      ap (λ n. if holds first.phase then suc n else n) (holders-append tasks new h)
