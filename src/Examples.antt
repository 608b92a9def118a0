-- ===== src/Examples.antt =====
-- Tests of the definitions on small inputs, and the theorems at inputs that meet their hypotheses.
pub mod Tree
pub mod Buffer
pub mod Collect
pub mod Ordered
pub mod Leasing
pub mod Dimensions
pub mod Text
pub mod Waiting
pub mod Modules
pub mod Sorting
pub mod Logging
pub mod CommandLine
pub mod Watching
pub mod Loading
