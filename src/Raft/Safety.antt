-- ===== src/Raft/Safety.antt =====
-- Election safety of the coordinators: the invariant and its preservation, step by step.
pub mod Invariant
pub mod Methods
pub mod Moves
pub mod Casting
pub mod Leading
pub mod Steps
pub mod Elections
