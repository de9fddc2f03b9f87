-- ===== src/Session/Start/Opening.antt =====
-- A new session of src/digital.rs: it is always reached, its books are balanced and its queue is in order.

use sim_core.Prelude.{ℕ, ◌<◌, ◌≡◌, String, List}
use sim_core.Prelude.Loop.{Returns, Returns-imp}
use sim_core.Prelude.Result.{Ensures, Ensures-any}
use sim_core.Control.{ExecutionControl}
use sim_core.Float.{Float, BitOrder}
use sim_core.Session.Due.{Timely, schedule_output-Timely}
use sim_core.Logic.{LogicValue}
use sim_core.Events.{Agenda, max_digital_events, schedule_output}
use sim_core.Events.Ledger.{Balanced}
use sim_core.Primitive.{CompiledDigitalComponent, RuntimeState}
use sim_core.Program.{DigitalProgram}
use sim_core.Session.{DigitalSession}
use sim_core.Session.Start.{Started, schedule_initial, new}
use sim_core.Session.Start.Queue.{schedule_initial-Good, new-Good}

module _ (fl : Float) where
  open fl use {F}

  abbrev pub Open : Started fl → Type 0
  Open s = Balanced 0 s.0

  anything :
      (time : F) (component output : ℕ) (value : LogicValue) (a : Agenda F)
      → Unit {0}
      → Unit {0}
      → Ensures (λ a'. Unit {0}) (schedule_output fl time component output value a)
  anything time component output value a u q =
      Ensures-any (schedule_output fl time component output value a)

  pub schedule_initial-Returns :
      (fuel : ℕ) (control : ExecutionControl) (stop : F) (index : ℕ)
      (components : List (CompiledDigitalComponent F)) (states : List RuntimeState)
      (started : Started fl)
      → max_digital_events < fuel
      → Open started
      → Returns Open (schedule_initial fl fuel control stop index components states started)
  schedule_initial-Returns fuel control stop index components states started h b =
      Returns-imp _ Open (λ s g. g.0)
        (schedule_initial fl fuel control stop index components states started)
        (schedule_initial-Good fl (λ a. Unit) anything fuel control stop index components states
          started h (b, tt))

  -- A session as it starts: nothing is processed and the books are balanced.
  pub record Fresh (s : DigitalSession F) : Type 0 where
    pub balanced : Balanced 0 s.agenda
    pub unprocessed : s.processed_events ≡ 0

  -- With fuel for the event limit, starting a session returns an error or a session that has
  -- processed nothing and whose books are balanced.
  pub new-Fresh :
      (fuel : ℕ) (control : ExecutionControl) (program : DigitalProgram F) (stop : F)
      (inputs : List String)
      → max_digital_events < fuel
      → Returns Fresh (new fl fuel control program stop inputs)
  new-Fresh fuel control program stop inputs h =
      Returns-imp _ Fresh (λ s g. record { balanced = g.0.0; unprocessed = g.1 })
        (new fl fuel control program stop inputs)
        (new-Good fl (λ a. Unit) anything fuel control program stop inputs h tt)

module _ (fl : Float) (o : BitOrder fl) where
  open fl use {F}

  -- The queue of a new session is in the order in which it is served, and of finite times.
  pub new-Timely :
      (fuel : ℕ) (control : ExecutionControl) (program : DigitalProgram F) (stop : F)
      (inputs : List String)
      → max_digital_events < fuel
      → Returns (λ s. Timely fl o s.agenda.queue) (new fl fuel control program stop inputs)
  new-Timely fuel control program stop inputs h =
      Returns-imp _ (λ s. Timely fl o s.agenda.queue) (λ s g. g.0.1)
        (new fl fuel control program stop inputs)
        (new-Good fl (λ a. Timely fl o a.queue) (schedule_output-Timely fl o) fuel control program
          stop inputs h (record { in_order = tt; finite = tt }))
