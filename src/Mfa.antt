-- ===== src/Mfa.antt =====
-- smp-auth-ts/src/services/mfa.service.ts and the types of smp-auth-ts/src/interface/mfa.interface.ts:
-- second factors, their challenges, backup codes and trusted devices. Times are milliseconds, the
-- clock, random codes and fresh identifiers are arguments of the calls.
pub mod State
pub mod Backup
pub mod Methods
pub mod Setup
pub mod Challenges
pub mod Devices
pub mod Resend
pub mod Tests
