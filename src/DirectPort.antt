-- ===== src/DirectPort.antt =====
-- scripts/direct_port_probe.py: the inspection of the directly published database container.
pub mod Publication
pub mod Inspection
pub mod Groups
pub mod Safe
pub mod Watch
