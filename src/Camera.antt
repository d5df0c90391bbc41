-- ===== src/Camera.antt =====
-- services/input-cv/input_cv: the camera service, with its health, its reopen loop and its privacy
-- check.
pub mod Tracker
pub mod Reopen
pub mod Run
