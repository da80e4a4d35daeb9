-- ===== src/Main/Steps.antt =====
-- What the handlers of the program do to its timers, its password and its seats, as a relation of
-- steps between states.
pub mod Core
pub mod Capacity
pub mod Scheduling
pub mod Handlers
pub mod Callbacks
pub mod Events
