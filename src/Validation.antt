-- ===== src/Validation.antt =====
-- `validate_circuit` of src/validation.rs: its report, the names it accepts, the models, components
-- and nets.
pub mod Report
pub mod Names
pub mod Parts
pub mod Modules
pub mod Converters
pub mod Nets
pub mod Circuit
pub mod Fresh
pub mod Ids
pub mod Tables
pub mod Endpoints
pub mod Sides
pub mod Sound
