-- ===== src/Domain.antt =====
-- JpgSpinner.Domain: the values and rules that every other part of the program shares.
pub mod Failure
pub mod SymbolicNames
pub mod Geometry
pub mod Orientation
pub mod Planner
