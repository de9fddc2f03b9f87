-- ===== src/Service/Sound.antt =====
-- The invariant of the service of src/service.rs under every sequence of submissions, cancellations and
-- steps of its tasks.
use sim_core.Prelude.{
  ℕ, zero, suc, ◌+◌, ◌≤◌, ◌≡◌, refl, sym, subst, ap, some, length, inl, inr, Bool-cases,
  Option-cases, arith, get_elem?,
}
use sim_core.Prelude.Map.{lookup, nat_key, AllValues}
use sim_core.Job.{
  ServiceLimits, running, JobEntry, Work, withdrawal, Phase, waiting, admitted, withdrawing,
  withdrawn, cleared, executing, ended, returned, ending, Task, ServiceState,
}
use sim_core.Service.{
  publish, with_entry, settled, update_status, finish_cancelled, finish_job, ending_of, token_of,
  go_on, acquire, run_job,
}
use sim_core.Service.Jobs.{replace-AllValues, length-replace}
use sim_core.Service.Permits.{holds, holders, count, holders-set}
use sim_core.Service.Entries.{IsCoherent, finish_job-IsCoherent, running-IsCoherent}

module _ {F : Type 0} where
  pub record Sound (limits : ServiceLimits) (st : ServiceState F) : Type 0 where
    pub configured : st.limits ≡ limits
    pub retained : length st.jobs ≤ limits.max_retained_jobs
    pub permitted : st.permits + holders st.tasks ≡ limits.max_concurrent_jobs
    pub coherent : AllValues IsCoherent st.jobs

  -- A change that leaves the shape of an entry right keeps the service sound.
  pub with_entry-Sound :
      (limits : ServiceLimits) (id : ℕ) (change : JobEntry F → JobEntry F) (st : ServiceState F)
      → ((entry : JobEntry F) → IsCoherent (publish (change entry)))
      → Sound limits st
      → Sound limits (with_entry id change st)
  unfolding with_entry
  with_entry-Sound limits id change st good sound = elim (Option-cases (lookup id st.jobs)) [
    | inl missing ↦ rw (missing, with_entry) sound
    | inr (entry, there) ↦
        rw (there, with_entry)
          (record {
            configured = sound.configured;
            retained =
                subst (λ n. n ≤ limits.max_retained_jobs)
                  (sym (length-replace id (publish (change entry)) st.jobs)) sound.retained;
            permitted = sound.permitted;
            coherent =
                replace-AllValues IsCoherent id (publish (change entry)) st.jobs (good entry)
                  sound.coherent;
          })
  ]

  -- Moving a task on, with the permits that its phases hold.
  go_on-Sound :
      (limits : ServiceLimits) (st : ServiceState F) (index permits : ℕ) (task : Task F)
      (next : Phase F)
      → get_elem? st.tasks index ≡ some task
      → permits + count (holds next) ≡ st.permits + count (holds task.phase)
      → Sound limits st
      → Sound limits (go_on index task next (record st { permits = permits }))
  go_on-Sound limits st index permits task next there balance sound = record {
    configured = sound.configured;
    retained = sound.retained;
    permitted = omega (
      arith,
      sound.permitted,
      balance,
      holders-set st.tasks index task (record { id = task.id; phase = next }) there,
    );
    coherent = sound.coherent;
  }

  acquire-Sound :
      (limits : ServiceLimits) (st : ServiceState F) (index permits : ℕ) (task : Task F)
      → get_elem? st.tasks index ≡ some task
      → permits ≡ st.permits
      → task.phase ≡ waiting
      → Sound limits st
      → Sound limits (acquire index task permits st)
  unfolding acquire
  acquire-Sound limits st index zero task there now here sound = sound
  acquire-Sound limits st index (suc permits) task there now here sound =
      go_on-Sound limits st index permits task admitted there (rw here (omega (arith, now))) sound

  pub tasks-with_entry :
      (id : ℕ) (change : JobEntry F → JobEntry F) (st : ServiceState F)
      → (with_entry id change st).tasks ≡ st.tasks
  unfolding with_entry
  tasks-with_entry id change st = elim (Option-cases (lookup id st.jobs)) [
    | inl missing ↦ rw (missing, with_entry) refl
    | inr (entry, there) ↦ rw (there, with_entry) refl
  ]

  -- A published change, after which the task goes on with the same permit.
  changed-Sound :
      (limits : ServiceLimits) (st : ServiceState F) (index : ℕ) (task : Task F) (next : Phase F)
      (change : JobEntry F → JobEntry F)
      → get_elem? st.tasks index ≡ some task
      → count (holds next) ≡ count (holds task.phase)
      → ((entry : JobEntry F) → IsCoherent (publish (change entry)))
      → Sound limits st
      → Sound limits (go_on index task next (with_entry task.id change st))
  changed-Sound limits st index task next change there balance good sound =
      let st' = with_entry task.id change st in
      go_on-Sound limits st' index st'.permits task next
        (subst (λ ts. get_elem? ts index ≡ some task) (sym (tasks-with_entry task.id change st))
          there)
        (ap (λ n. st'.permits + n) balance) (with_entry-Sound limits task.id change st good sound)

  pub run_job-Sound :
      (limits : ServiceLimits) (st : ServiceState F) (index : ℕ) (task : Task F) (work : Work F)
      (phase : Phase F)
      → get_elem? st.tasks index ≡ some task
      → task.phase ≡ phase
      → Sound limits st
      → Sound limits (run_job index task work phase st)
  unfolding run_job update_status
  run_job-Sound limits st index task work waiting there here sound =
      acquire-Sound limits st index st.permits task there refl here sound
  run_job-Sound limits st index task work admitted there here sound =
      elim (Bool-cases (token_of task.id st)) [
        | inl on ↦
            rw on
              (go_on-Sound limits st index st.permits task withdrawing there (rw here refl) sound)
        | inr off ↦
            rw off (go_on-Sound limits st index st.permits task cleared there (rw here refl) sound)
      ]
  run_job-Sound limits st index task work withdrawing there here sound =
      changed-Sound limits st index task withdrawn finish_cancelled there (rw here refl)
        (λ entry. finish_job-IsCoherent withdrawal entry) sound
  run_job-Sound limits st index task work withdrawn there here sound =
      go_on-Sound limits st index (suc st.permits) task ended there (rw here (omega arith)) sound
  run_job-Sound limits st index task work cleared there here sound =
      changed-Sound limits st index task executing
        (λ entry. settled running entry.snapshot.result entry.snapshot.error entry) there
        (rw here refl) running-IsCoherent sound
  run_job-Sound limits st index task work executing there here sound =
      go_on-Sound limits st index (suc st.permits) task (returned work) there
        (rw here (omega arith)) sound
  run_job-Sound limits st index task work ended there here sound = sound
  run_job-Sound limits st index task work (returned result) there here sound =
      elim (Bool-cases (token_of task.id st)) [
        | inl on ↦ rw on (
            go_on-Sound limits st index st.permits task (ending withdrawal) there (rw here refl)
              sound)
        | inr off ↦ rw off (
            go_on-Sound limits st index st.permits task (ending (ending_of result)) there
              (rw here refl) sound)
      ]
  run_job-Sound limits st index task work (ending e) there here sound =
      changed-Sound limits st index task ended (finish_job e) there (rw here refl)
        (finish_job-IsCoherent e) sound
