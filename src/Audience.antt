-- ===== src/Audience.antt =====
-- services/audience-state: the sliding window over camera observations, and the signal built of it.
pub mod Numbers
pub mod Window
pub mod Demographics
pub mod Consumer
pub mod Publisher
