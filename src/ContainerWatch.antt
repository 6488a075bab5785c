-- ===== src/ContainerWatch.antt =====
-- scripts/container_watch.py: the observer of the CLI's containers. What it holds against one
-- inspected container and against the packet network (Contracts), what it writes down and when it
-- stops (Observer).
pub mod Violations
pub mod Contracts
