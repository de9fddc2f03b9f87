-- ===== src/Service/Tasks.antt =====
-- The steps of a task of src/service.rs, and how many of them it may have left.
use sim_core.Prelude.{
  ℕ, zero, suc, ◌+◌, ◌-◌, ◌≤◌, ◌≡◌, refl, sym, subst, ap, ◌∙◌, ◌==◌, Bool, true, false, List, [],
  ◌∷◌, ◌++◌, some, inl, inr, Bool-cases, arith, set, get_elem?, if◌then◌else◌,
}
use sim_core.Prelude.Map.{nat_key}
use sim_core.Job.{
  JobEntry, Work, Phase, waiting, admitted, withdrawing, withdrawn, cleared, executing, ended,
  returned, ending, Task, ServiceState, Move, works, withdrawal,
}
use sim_core.Service.{with_entry, update_status, acquire, token_of, go_on, run_job, ending_of}
use sim_core.Service.Sound.{tasks-with_entry}

module _ {A : Type 0} where
  get_elem?-set_same :
      (xs : List A) (i : ℕ) {x : A} (v : A)
      → get_elem? xs i ≡ some x
      → get_elem? (set xs i v) i ≡ some v
  get_elem?-set_same [] i v h = cc
  get_elem?-set_same (x ∷ xs) zero v h = refl
  get_elem?-set_same (x ∷ xs) (suc i) v h = get_elem?-set_same xs i v h

  get_elem?-set_other :
      (xs : List A) (i j : ℕ) (v : A) → (i == j) ≡ false → get_elem? (set xs j v) i ≡ get_elem? xs i
  get_elem?-set_other [] i j v h = refl
  get_elem?-set_other (x ∷ xs) zero zero v h = cc
  get_elem?-set_other (x ∷ xs) zero (suc j) v h = refl
  get_elem?-set_other (x ∷ xs) (suc i) zero v h = refl
  get_elem?-set_other (x ∷ xs) (suc i) (suc j) v h = get_elem?-set_other xs i j v (ground arith)

  pub get_elem?-append_left :
      (xs ys : List A) (i : ℕ) {x : A} → get_elem? xs i ≡ some x → get_elem? (xs ++ ys) i ≡ some x
  get_elem?-append_left [] ys i h = cc
  get_elem?-append_left (x ∷ xs) ys zero h = h
  get_elem?-append_left (x ∷ xs) ys (suc i) h = get_elem?-append_left xs ys i h

module _ {F : Type 0} where
  -- The steps of its own that a task with a permit may have left.
  abbrev pub left : Phase F → ℕ
  left waiting = 5
  left admitted = 5
  left cleared = 4
  left executing = 3
  left (returned result) = 2
  left withdrawing = 2
  left (ending e) = 1
  left withdrawn = 1
  left ended = 0

  abbrev pub is_waiting : Phase F → Bool
  is_waiting waiting = true
  is_waiting _ = false

  -- The steps of task `index` among what happens.
  abbrev pub own : ℕ → Move F → ℕ
  own index (works other work) = if index == other then 1 else 0
  own index _ = 0

  abbrev pub own_steps : ℕ → List (Move F) → ℕ
  own_steps index [] = 0
  own_steps index (m ∷ moves) = own index m + own_steps index moves

  -- A task that has its permit, with at most `n` steps left.
  pub record Stands (id index n : ℕ) (st : ServiceState F) : Type 0 where
    pub task : Task F
    pub there : get_elem? st.tasks index ≡ some task
    pub named : task.id ≡ id
    pub permitted : is_waiting task.phase ≡ false
    pub near : left task.phase ≤ n

  Stands-go_on :
      (index n : ℕ) (task : Task F) (next : Phase F) (st : ServiceState F)
      → get_elem? st.tasks index ≡ some task
      → is_waiting next ≡ false
      → left next ≤ n
      → Stands task.id index n (go_on index task next st)
  Stands-go_on index n task next st there on near = record {
    task = record { id = task.id; phase = next };
    there = get_elem?-set_same st.tasks index (record { id = task.id; phase = next }) there;
    named = refl;
    permitted = on;
    near = near;
  }

  Stands-changed :
      (index n : ℕ) (task : Task F) (next : Phase F) (change : JobEntry F → JobEntry F)
      (st : ServiceState F)
      → get_elem? st.tasks index ≡ some task
      → is_waiting next ≡ false
      → left next ≤ n
      → Stands task.id index n (go_on index task next (with_entry task.id change st))
  Stands-changed index n task next change st there on near =
      Stands-go_on index n task next (with_entry task.id change st)
        (subst (λ ts. get_elem? ts index ≡ some task) (sym (tasks-with_entry task.id change st))
          there)
        on near

  pub run_job-Stands :
      (index n : ℕ) (task : Task F) (work : Work F) (phase : Phase F) (st : ServiceState F)
      → get_elem? st.tasks index ≡ some task
      → task.phase ≡ phase
      → is_waiting phase ≡ false
      → left phase ≤ n
      → Stands task.id index (n - 1) (run_job index task work phase st)
  unfolding run_job update_status
  run_job-Stands index n task work waiting st there here on near = cc
  run_job-Stands index n task work admitted st there here on near =
      elim (Bool-cases (token_of task.id st)) [
        | inl set_off ↦
            rw set_off (Stands-go_on index (n - 1) task withdrawing st there refl (omega arith))
        | inr clear ↦ rw clear (Stands-go_on index (n - 1) task cleared st there refl (omega arith))
      ]
  run_job-Stands index n task work withdrawing st there here on near =
      Stands-changed index (n - 1) task withdrawn _ st there refl (omega arith)
  run_job-Stands index n task work withdrawn st there here on near =
      Stands-go_on index (n - 1) task ended _ there refl (omega arith)
  run_job-Stands index n task work cleared st there here on near =
      Stands-changed index (n - 1) task executing _ st there refl (omega arith)
  run_job-Stands index n task work executing st there here on near =
      Stands-go_on index (n - 1) task (returned work) _ there refl (omega arith)
  run_job-Stands index n task work (returned result) st there here on near =
      elim (Bool-cases (token_of task.id st)) [
        | inl set_off ↦
            rw set_off
              (Stands-go_on index (n - 1) task (ending withdrawal) st there refl (omega arith))
        | inr clear ↦ rw clear (
            Stands-go_on index (n - 1) task (ending (ending_of result)) st there refl (omega arith))
      ]
  run_job-Stands index n task work (ending e) st there here on near =
      Stands-changed index (n - 1) task ended _ st there refl (omega arith)
  run_job-Stands index n task work ended st there here on near = record {
    task = task;
    there = there;
    named = refl;
    permitted = rw here refl;
    near = rw here (omega arith);
  }

  changed-other :
      (index other : ℕ) (task : Task F) (next : Phase F) (change : JobEntry F → JobEntry F)
      (st : ServiceState F)
      → (index == other) ≡ false
      → get_elem? (go_on other task next (with_entry task.id change st)).tasks index
        ≡ get_elem? st.tasks index
  changed-other index other task next change st h =
      get_elem?-set_other (with_entry task.id change st).tasks index other _ h
      ∙ ap (λ ts. get_elem? ts index) (tasks-with_entry task.id change st)

  acquire-other :
      (index other permits : ℕ) (task : Task F) (st : ServiceState F)
      → (index == other) ≡ false
      → get_elem? (acquire other task permits st).tasks index ≡ get_elem? st.tasks index
  unfolding acquire
  acquire-other index other zero task st h = refl
  acquire-other index other (suc permits) task st h = get_elem?-set_other st.tasks index other _ h

  -- A step of another task leaves the task where it is.
  pub run_job-other :
      (index other : ℕ) (task : Task F) (work : Work F) (phase : Phase F) (st : ServiceState F)
      → (index == other) ≡ false
      → get_elem? (run_job other task work phase st).tasks index ≡ get_elem? st.tasks index
  unfolding run_job update_status
  run_job-other index other task work waiting st h = acquire-other index other st.permits task st h
  run_job-other index other task work admitted st h = elim (Bool-cases (token_of task.id st)) [
    | inl set_off ↦ rw set_off (get_elem?-set_other st.tasks index other _ h)
    | inr clear ↦ rw clear (get_elem?-set_other st.tasks index other _ h)
  ]
  run_job-other index other task work withdrawing st h = changed-other index other task _ _ st h
  run_job-other index other task work withdrawn st h = get_elem?-set_other st.tasks index other _ h
  run_job-other index other task work cleared st h = changed-other index other task _ _ st h
  run_job-other index other task work executing st h = get_elem?-set_other st.tasks index other _ h
  run_job-other index other task work (returned result) st h =
      elim (Bool-cases (token_of task.id st)) [
        | inl set_off ↦ rw set_off (get_elem?-set_other st.tasks index other _ h)
        | inr clear ↦ rw clear (get_elem?-set_other st.tasks index other _ h)
      ]
  run_job-other index other task work (ending e) st h = changed-other index other task _ _ st h
  run_job-other index other task work ended st h = refl
