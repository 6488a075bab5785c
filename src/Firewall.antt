-- ===== src/Firewall.antt =====
-- scripts/firewall_boundary.py: the rule set of the packet firewall and its restoration.
pub mod Checked
pub mod Rules
pub mod Owned
pub mod Ledger
pub mod Restoration
pub mod Completion
