-- ===== src/Passes.antt =====
-- The two passes of src/passes: the first lays the sections out and fills the symbol table, the
-- second writes the bytes, the emission spans, the line records and the relocations.
pub mod Instruction
pub mod Data
pub mod Debug
pub mod Offsets
pub mod Reports
pub mod First
pub mod Buffers
pub mod Resolve
pub mod Output
pub mod Second
pub mod Sizes
pub mod Emission
pub mod Layout
pub mod Tables
pub mod Placed
pub mod Agreement
mod Examples
pub mod Powers
pub mod Alignments
pub mod Aligned
pub mod Values
pub mod Lines
pub mod Records
pub mod Locations
pub mod Appends
pub mod Jumps
pub mod Middle
pub mod Reaches
