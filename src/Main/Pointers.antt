-- ===== src/Main/Pointers.antt =====
-- The state's pointers to timers against the event loop's list of timers.
pub mod Slots
pub mod Lists
pub mod Invariant
pub mod Changes
pub mod Arming
pub mod Firing
pub mod Moves
pub mod Program
