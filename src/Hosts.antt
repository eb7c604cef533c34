-- ===== src/Hosts.antt =====
-- Host names and the resolver of src/services/manifest.rs: which origin serves a request's host.
pub mod Names
pub mod Resolver
pub mod Declared
