-- ===== src/Control.antt =====
-- `ExecutionPolicy` and `ExecutionControl` of src/engine.rs, and the two checks of a run in progress:
-- `check_execution` of src/digital.rs and `check_control` of src/cosim.rs.
use sim_core.Prelude.{ℕ, Bool, ◌&&◌, ltb, leb, ◌==◌}
use sim_core.Prelude.Result.{Result, reject, ◌>>◌}

pub record ExecutionPolicy : Type 0 where
  pub timeout_ms : ℕ
  pub poll_interval_ms : ℕ
  pub max_input_bytes : ℕ
  pub max_output_bytes : ℕ
  pub max_log_bytes : ℕ

-- The token may be cancelled by another thread at any moment, and the clock runs on: both are read at
-- an instant, which a run counts by the checks that it has made.
pub record ExecutionControl : Type 0 where
  pub policy : ExecutionPolicy
  pub is_cancelled : ℕ → Bool
  pub elapsed_ms : ℕ → ℕ

-- `ExecutionPolicy::validate`.
unfoldable pub validate_policy : ExecutionPolicy → Result (Unit {0})
validate_policy p = reject (p.poll_interval_ms == 0) "execution_policy_invalid"

-- The check at an instant; `check_control` differs from it in the text of its messages alone.
unfoldable pub check_execution : ExecutionControl → ℕ → Result (Unit {0})
check_execution control instant = do
  reject (control.is_cancelled instant) "execution_cancelled"
  reject
      (ltb 0 control.policy.timeout_ms
        && leb control.policy.timeout_ms (control.elapsed_ms instant))
      "execution_timeout"
