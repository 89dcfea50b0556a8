-- ===== src/Tests.antt =====
-- Concrete inputs: tests of the models and instances of the theorems.
mod Floats
mod Accounts
mod Payouts
mod Services
mod Masses
mod Kas
