-- ===== src/Main/Unlock.antt =====
-- What can end the main loop and so unlock the session.
pub mod Keeps
pub mod Replies
pub mod Rounds
