-- ===== src/Service/Ends.antt =====
-- A task of src/service.rs that has its permit comes to its end by steps of its own.
use sim_core.Prelude.{
  ℕ, ◌+◌, ◌-◌, ◌≤◌, ◌≡◌, refl, sym, subst, ◌∙◌, ◌==◌, true, false, List, [], ◌∷◌, some, length, inl,
  inr, leb, Bool-cases, Option-cases, arith, get_elem?, if◌then◌else◌,
}
use sim_core.Prelude.Map.{lookup, nat_key}
use sim_core.Job.{
  is_terminal, Work, Phase, waiting, admitted, withdrawing, withdrawn, cleared, executing, ended,
  returned, ending, Task, ServiceState, Move, submits, cancels, works,
}
use sim_core.Service.{
  run_job, task_step, submit_job, cancel_entry, cancel_job, move, serve, prune_terminal_jobs,
}
use sim_core.Service.Sound.{tasks-with_entry}
use sim_core.Service.Tasks.{
  get_elem?-append_left, left, is_waiting, own, own_steps, Stands, run_job-Stands, run_job-other,
}

difference : (a b c : ℕ) → a - b - c ≡ a - (b + c)
difference a b c = omega arith

same_index : (a b : ℕ) → (a == b) ≡ true → a ≡ b
same_index a b h = ground arith

module _ {F : Type 0} where
  -- A task that stands in a state of which the tasks are the same at its index.
  Stands-same :
      (id index n bound : ℕ) (st later : ServiceState F)
      → n ≤ bound
      → ((task : Task F)
          → get_elem? st.tasks index ≡ some task
          → get_elem? later.tasks index ≡ some task)
      → Stands id index n st
      → Stands id index bound later
  Stands-same id index n bound st later within keeps stands = record {
    task = stands.task;
    there = keeps stands.task stands.there;
    named = stands.named;
    permitted = stands.permitted;
    near = omega (arith, stands.near, within);
  }

  task_step-Stands :
      (id index n other : ℕ) (work : Work F) (st : ServiceState F)
      → Stands id index n st
      → Stands id index (n - (if index == other then 1 else 0)) (task_step other work st)
  unfolding task_step
  task_step-Stands id index n other work st stands = elim (Bool-cases (index == other)) [
    | inl own_step ↦ rw own_step (
        subst (λ j. Stands id index (n - 1) (task_step j work st)) (same_index index other own_step)
          (rw (stands.there, task_step)
            (subst
              (λ i. Stands i index (n - 1) (run_job index stands.task work stands.task.phase st))
              stands.named
              (run_job-Stands index n stands.task work stands.task.phase st stands.there refl
                stands.permitted stands.near))))
    | inr apart ↦ rw apart (
        Stands-same id index n (n - 0) st (task_step other work st) (omega arith)
          (λ task there. elim (Option-cases (get_elem? st.tasks other)) [
            | inl missing ↦ rw (missing, task_step) there
            | inr (moved, at) ↦
                rw (at, task_step)
                  (run_job-other index other moved work moved.phase st apart ∙ there)
          ])
          stands)
  ]

  cancel_job-tasks : (id : ℕ) (st : ServiceState F) → (cancel_job id st).tasks ≡ st.tasks
  unfolding cancel_job
  cancel_job-tasks id st = elim (Option-cases (lookup id st.jobs)) [
    | inl missing ↦ rw (missing, cancel_job) refl
    | inr (entry, there) ↦
        rw (there, cancel_job)
          (elim (Bool-cases (is_terminal entry.snapshot.status)) [
            | inl done ↦ rw done refl
            | inr live ↦ rw live (tasks-with_entry id cancel_entry st)
          ])
  ]

  submit_job-keeps :
      (st : ServiceState F) (index : ℕ) (task : Task F)
      → get_elem? st.tasks index ≡ some task
      → get_elem? (submit_job st).1.tasks index ≡ some task
  unfolding submit_job
  submit_job-keeps st index task there =
      elim (Bool-cases (
        leb st.limits.max_retained_jobs
          (length (prune_terminal_jobs st.limits.max_retained_jobs st.jobs)))) [
            | inl full ↦ rw full there
            | inr room ↦ rw room (get_elem?-append_left st.tasks _ index there)
          ]

  move-Stands :
      (id index n : ℕ) (m : Move F) (st : ServiceState F)
      → Stands id index n st
      → Stands id index (n - own index m) (move m st)
  unfolding move
  move-Stands id index n submits st stands =
      Stands-same id index n (n - 0) st (submit_job st).1 (omega arith) (submit_job-keeps st index)
        stands
  move-Stands id index n (cancels job) st stands =
      Stands-same id index n (n - 0) st (cancel_job job st) (omega arith)
        (λ task there.
          subst (λ ts. get_elem? ts index ≡ some task) (sym (cancel_job-tasks job st)) there)
        stands
  move-Stands id index n (works other work) st stands =
      task_step-Stands id index n other work st stands

  serve-Stands :
      (id index n : ℕ) (moves : List (Move F)) (st : ServiceState F)
      → Stands id index n st
      → Stands id index (n - own_steps index moves) (serve moves st)
  unfolding serve
  serve-Stands id index n [] st stands =
      Stands-same id index n (n - 0) st st (omega arith) (λ task there. there) stands
  serve-Stands id index n (m ∷ moves) st stands =
      subst (λ k. Stands id index k (serve moves (move m st)))
        (difference n (own index m) (own_steps index moves))
        (serve-Stands id index (n - own index m) moves (move m st)
          (move-Stands id index n m st stands))

  left-ended : (phase : Phase F) → left phase ≤ 0 → phase ≡ ended
  left-ended ended h = refl
  left-ended waiting h = absurd (omega arith)
  left-ended admitted h = absurd (omega arith)
  left-ended withdrawing h = absurd (omega arith)
  left-ended withdrawn h = absurd (omega arith)
  left-ended cleared h = absurd (omega arith)
  left-ended executing h = absurd (omega arith)
  left-ended (returned result) h = absurd (omega arith)
  left-ended (ending e) h = absurd (omega arith)

  -- A task that has its permit ends after five steps of its own, whatever submissions, cancellations and
  -- steps of other tasks come between them, and whatever the simulator gives. Until then and after it,
  -- it is a task of the same job.
  pub serve-ended :
      (st : ServiceState F) (index : ℕ) (task : Task F) (moves : List (Move F))
      → get_elem? st.tasks index ≡ some task
      → is_waiting task.phase ≡ false
      → 5 ≤ own_steps index moves
      → get_elem? (serve moves st).tasks index ≡ some (record { id = task.id; phase = ended })
  serve-ended st index task moves there on enough =
      let last = serve-Stands task.id index 5 moves st (record {
        task = task;
        there = there;
        named = refl;
        permitted = on;
        near = left-most task.phase;
      }) in
      subst (λ i. get_elem? (serve moves st).tasks index ≡ some (record { id = i; phase = ended }))
        last.named
        (subst
          (λ p.
            get_elem? (serve moves st).tasks index ≡ some (record { id = last.task.id; phase = p }))
          (left-ended last.task.phase (omega (arith, last.near, enough))) last.there)
    where
      left-most : (phase : Phase F) → left phase ≤ 5
      left-most waiting = omega arith
      left-most admitted = omega arith
      left-most withdrawing = omega arith
      left-most withdrawn = omega arith
      left-most cleared = omega arith
      left-most executing = omega arith
      left-most ended = omega arith
      left-most (returned result) = omega arith
      left-most (ending e) = omega arith
