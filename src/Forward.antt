-- ===== src/Forward.antt =====
-- Port forwarding: the specs of the command line, the live commands, and the daemon's registry.
pub mod Spec
pub mod StateFile
pub mod Registry
pub mod Lifecycle
pub mod Proxy
