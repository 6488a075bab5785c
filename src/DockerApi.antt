-- ===== src/DockerApi.antt =====
-- scripts/docker_api_boundary.py: the relay between the CLI and the Docker socket. The modules
-- below follow the file: what a request is (Path), JSON bodies (Json), the closed policy of the
-- database start (Policy), the receipt (Receipt), and HTTP framing (Framing, Head).
pub mod Library
pub mod Outcome
pub mod Path
pub mod Json
pub mod Headers
pub mod Policy
pub mod Receipt
pub mod Framing
