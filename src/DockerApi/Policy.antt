-- ===== src/DockerApi/Policy.antt =====
-- `DBStartPolicy`: the closed one-shot policy of the database start. The state, the methods and
-- their proofs are in the modules below.
pub mod State
pub mod Descriptor
pub mod Target
pub mod Body
pub mod Authorize
pub mod Accept
pub mod Run
