-- ===== src/Clocks.antt =====
-- algorithms/clocks.py: `LamportClock` and `VectorClock`. Every method runs under the object's
-- lock, so a method is one function from the old state to its result and the new state.
pub mod Lamport
pub mod Vector
pub mod Order
pub mod Causality
mod Examples
