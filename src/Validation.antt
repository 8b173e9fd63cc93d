-- ===== src/Validation.antt =====
-- mu-auth/src/auth/services/user-registration-validation.service.ts: the rules for a new account.
-- A text is the list of its UTF-16 code units, on which the source's regular expressions work.
-- Each error or warning message of the source is a constructor.
pub mod Text
pub mod Password
pub mod Username
pub mod Email
pub mod Registration
mod Tests
