-- ===== src/Stack.antt =====
-- network_stack.go: the filter of the container's packets, and the handlers of its connections.
-- gVisor's netstack is outside: its constants, its accessors and its traversal of a table of rules
-- are parameters.
pub mod Filter
pub mod Handlers
pub mod Echo
pub mod Setup
