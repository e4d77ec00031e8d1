-- ===== src/Auth.antt =====
-- Sign-in: app/core/password_policy.py and app/domains/auth/throttle.py.
pub mod Password
pub mod Runs
pub mod Rules
pub mod Throttle
pub mod Budget
mod Tests
