-- ===== src/Service/Jobs.antt =====
-- The map of jobs of src/service.rs under insertion, replacement and removal: its values and its length.
use sim_core.Prelude.{
  ℕ, suc, ◌≤◌, ◌≡◌, refl, List, [], ◌∷◌, length, inl, inr, ltb, Bool-cases, arith,
}
use sim_core.Prelude.Map.{same, insert, replace, remove_key, nat_key, AllValues}
use sim_core.Job.{JobEntry}
use sim_core.Service.{remove_while_full, prune_terminal_jobs, terminal_ids}

module _ {V : Type 0} (Q : V → Type 0) where
  pub replace-AllValues :
      (a : ℕ) (v : V) (m : List (ℕ × V)) → Q v → AllValues Q m → AllValues Q (replace a v m)
  unfolding replace
  replace-AllValues a v [] q all = tt
  replace-AllValues a v ((b, w) ∷ m) q all = elim (Bool-cases (same a b)) [
    | inl here ↦ rw here (q, all.1)
    | inr there ↦ rw there (all.0, replace-AllValues a v m q all.1)
  ]

  pub remove_key-AllValues :
      (a : ℕ) (m : List (ℕ × V)) → AllValues Q m → AllValues Q (remove_key a m)
  unfolding remove_key
  remove_key-AllValues a [] all = tt
  remove_key-AllValues a ((b, w) ∷ m) all = elim (Bool-cases (same a b)) [
    | inl here ↦ rw here all.1
    | inr there ↦ rw there (all.0, remove_key-AllValues a m all.1)
  ]

module _ {V : Type 0} where
  pub length-replace : (a : ℕ) (v : V) (m : List (ℕ × V)) → length (replace a v m) ≡ length m
  unfolding replace
  length-replace a v [] = refl
  length-replace a v ((b, w) ∷ m) = ground (arith, length-replace a v m)

  pub length-remove_key : (a : ℕ) (m : List (ℕ × V)) → length (remove_key a m) ≤ length m
  unfolding remove_key
  length-remove_key a [] = ground arith
  length-remove_key a ((b, w) ∷ m) = ground (arith, length-remove_key a m)

  pub length-insert_next :
      (a : ℕ) (v : V) (m : List (ℕ × V)) → length (insert a v m) ≤ suc (length m)
  unfolding insert
  length-insert_next a v [] = ground arith
  length-insert_next a v ((b, w) ∷ m) = ground (arith, length-insert_next a v m)

module _ {F : Type 0} (Q : JobEntry F → Type 0) where
  remove_while_full-AllValues :
      (max_retained : ℕ) (ids : List ℕ) (jobs : List (ℕ × JobEntry F))
      → AllValues Q jobs
      → AllValues Q (remove_while_full max_retained ids jobs)
  unfolding remove_while_full
  remove_while_full-AllValues max_retained [] jobs all = all
  remove_while_full-AllValues max_retained (id ∷ ids) jobs all =
      elim (Bool-cases (ltb (length jobs) max_retained)) [
        | inl room ↦ rw room all
        | inr full ↦ rw full (
            remove_while_full-AllValues max_retained ids (remove_key id jobs)
              (remove_key-AllValues Q id jobs all))
      ]

  pub prune_terminal_jobs-AllValues :
      (max_retained : ℕ) (jobs : List (ℕ × JobEntry F))
      → AllValues Q jobs
      → AllValues Q (prune_terminal_jobs max_retained jobs)
  unfolding prune_terminal_jobs
  prune_terminal_jobs-AllValues max_retained jobs all =
      elim (Bool-cases (ltb (length jobs) max_retained)) [
        | inl room ↦ rw room all
        | inr full ↦ rw full (remove_while_full-AllValues max_retained (terminal_ids jobs) jobs all)
      ]

module _ {F : Type 0} where
  length-remove_while_full :
      (max_retained : ℕ) (ids : List ℕ) (jobs : List (ℕ × JobEntry F))
      → length (remove_while_full max_retained ids jobs) ≤ length jobs
  unfolding remove_while_full
  length-remove_while_full max_retained [] jobs = ground arith
  length-remove_while_full max_retained (id ∷ ids) jobs = ground (
    arith,
    length-remove_while_full max_retained ids (remove_key id jobs),
    length-remove_key id jobs,
  )

  pub length-prune_terminal_jobs :
      (max_retained : ℕ) (jobs : List (ℕ × JobEntry F))
      → length (prune_terminal_jobs max_retained jobs) ≤ length jobs
  unfolding prune_terminal_jobs
  length-prune_terminal_jobs max_retained jobs =
      ground (arith, length-remove_while_full max_retained (terminal_ids jobs) jobs)
