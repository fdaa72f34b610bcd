-- ===== src/Platform.antt =====
-- The surfaces around the core: the CLI's exit codes, GitHub's roles and retries.
pub mod ExitCode
pub mod Roles
pub mod Retry
pub mod Bypass
mod Examples
