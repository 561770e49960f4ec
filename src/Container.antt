-- ===== src/Container.antt =====
-- run_container.go, run.go and root.go: the files that the container is given, what decides how it is
-- launched, the system calls that set it up, and the two processes from its start to its end.
pub mod Files
pub mod Launch
pub mod Namespace
pub mod Protocol
pub mod Exit
