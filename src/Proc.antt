-- ===== src/Proc.antt =====
-- proc/: processes and threads. The scheduler's code is commented out in the source.
pub mod Process
