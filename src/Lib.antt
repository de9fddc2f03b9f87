-- ===== src/Lib.antt =====
-- The digital simulator and the co-simulation scheduler of sim-core.
--
-- src/digital.rs simulates circuits of four-state logic by events. It compiles a circuit into a
-- program: the components with their parameters, the nets of their pins, and the probes. A program
-- (`DigitalProgram`) has components with input and output nets; a net has a list of drivers, and a
-- list of dependents that read it. An event sets one driver at a time. The engine takes all events
-- of an instant at once, resolves the nets that they touch, evaluates the components that read a
-- changed net, and schedules their outputs after their delays. src/cosim.rs runs several backends in
-- step: it advances every participant to a common time, delivers outputs to inputs over links in
-- same-time delta cycles until nothing changes, records the outputs, and goes on to the next event
-- or step. A digital session is one such backend, and so are the converters of src/cosim_bridge.rs
-- between levels and voltages. A request comes in at the simulator of src/engine.rs, which validates
-- its circuit by src/validation.rs, selects the first registered engine that supports it, and runs
-- that; the digital engine is one such engine. The service of src/service.rs runs requests as jobs.
--
-- Which file models what:
--   Logic           `LogicValue` (src/waveform.rs) and its operations, the gates, the flip-flop helpers
--                   of src/digital.rs. Logic/Resolve has `resolve_net`.
--   Bus             `LogicVector`, `increment_bits` and `validate_width` of src/digital.rs.
--   Primitive       `DigitalPrimitive`, `RuntimeState` and `CompiledDigitalComponent::evaluate`.
--   Float           `f64` as far as simulated seconds need it.
--   Events          `ScheduledEvent`, its order, and `schedule_output`.
--   Control         `ExecutionPolicy` and `ExecutionControl` of src/engine.rs, and their checks.
--   Circuit         the circuit of src/circuit.rs, src/model.rs and src/units.rs.
--   Analysis        `Analysis` of src/analysis.rs and `SimulationRequest` of src/engine.rs.
--   Validation      `validate_circuit` of src/validation.rs: Validation/Report has its report,
--                   Validation/Names the names of ports, Validation/Parts models, pins and parameters,
--                   Validation/Modules `validate_mcu_component` and `validate_hdl_module`,
--                   Validation/Converters `validate_mixed_signal_bridge`, Validation/Nets the nets,
--                   Validation/Circuit the components and the whole.
--   Registry        `EngineRegistry`, `SimulationEngine` and `Simulator` of src/engine.rs;
--                   Registry/Digital `DigitalEngine` as an engine.
--   Job             the data of src/service.rs and the state that its handlers and tasks share.
--   Service         the jobs of src/service.rs: the handlers
--                   `submit_job`, `cancel_job` and `snapshot_job`, and the task `run_job` in steps.
--   Program         `DigitalProgram` of src/digital.rs. Program/Parameters has the readers of the
--                   parameters of components, Program/Design the primitives that the kinds of
--                   components stand for, Program/Compile `DigitalProgram::compile`.
--   Session         `DigitalParticipantSession`: `process_until`, `evaluate_components`;
--                   Session/Participant has `advance_to`, `write_external`, `read_net` and
--                   `next_event_time`; Session/Start has `new`, `schedule_initial`, `schedule_clock`.
--   Waveform        the histories of levels of src/waveform.rs. Waveform/Result has waveforms,
--                   statistics, metadata and `SimulationResult`.
--   Engine          the run of `DigitalEngine::run`, with the history of every net; Engine/Simulate
--                   `DigitalEngine::run` from a request to its result.
--   CoSim           the data of src/cosim.rs and the trait `CoSimulationParticipant` as `Backend`;
--                   CoSim/Ports has `validate_ports`, `add_participant` and `find_port`, CoSim/Links
--                   `validated_links`, CoSim/Settle `settle_links`, CoSim/Record `WaveformRecorder`,
--                   CoSim/Run `next_time` and `run`. CoSim/Lawful is the trait's contract,
--                   CoSim/Report the report with `WaveformRecorder::finish`.
--   Bridge          both converters of src/cosim_bridge.rs as backends of the scheduler.
--   Adapter         `DigitalCoSimulationParticipant`, a session as a backend of the scheduler.
--   Examples        the theorems at concrete inputs.
-- The other children of a module hold its theorems, and are named for what they are about.
--
-- How the state is modelled. A struct is a record; a method that mutates it takes the record and
-- returns the new one. `Result` is a data type whose error has a code and a retry flag; the text of
-- messages is left out. After an error the program gives up the run, so that no state is returned
-- with it. An index out of range and a failed `expect` are the error "panic". A `BTreeMap` or
-- `BTreeSet` is a list in the order of its keys, the binary heap of events a list with its greatest
-- element first. `u64` and `usize` are natural numbers: the sequence number of events wraps at
-- 2 ^ 64, saturating additions stop at 2 ^ 64 - 1, and the counters are bounded by limits far below.
-- `f64` is abstract: a record of its operations; the order of the queue needs only that `total_cmp`
-- and `to_bits` agree on an integer key; that no event behind one that is not due is due, that `<`
-- agrees with that order on finite times; and the adapter's contract that half a tick does not go
-- back in time. The cancellation flag and the clock are functions of an instant, which a run
-- advances at each of its checks, so that a theorem about every control covers a cancellation at
-- every moment.
--
-- Fuel. The loops of `process_until`, `schedule_clock` and `DigitalEngine::run` are bounded by the
-- limit of 1,000,000 events: each round processes or schedules an event at least. The loop of `run`
-- is bounded by the step limit of its configuration. The theorems on these loops show that this fuel
-- is enough.
--
-- An engine is a record of its methods; its run gives nothing where its fuel ends. A validation report
-- is its issues with their codes and paths, and a path is the text of the source.
--
-- A task of the service is cut into steps at its accesses to what it shares, and a run of the service is
-- a sequence of submissions, cancellations and steps, so that a theorem about every sequence covers
-- every interleaving.
--
-- Not modelled: the routes, the JSON and the sockets of the service; the runtime that finds and starts external
-- programs; the mixed-signal, ngspice, XSPICE, Verilator and Renode engines, which write inputs for
-- external solvers and read their outputs through processes, files and sockets; the constructors of
-- component kinds and model definitions, firmware images, and the texts of messages.
pub mod Prelude
pub mod Logic
pub mod Bus
pub mod Primitive
pub mod Float
pub mod Events
pub mod Control
pub mod Circuit
pub mod Analysis
pub mod Validation
pub mod Registry
pub mod Job
pub mod Service
pub mod Program
pub mod Session
pub mod Waveform
pub mod CoSim
pub mod Engine
pub mod Bridge
pub mod Adapter
pub mod Examples
