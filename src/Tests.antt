-- ===== src/Tests.antt =====
-- Runs of the definitions on concrete inputs, and the theorems at inputs that meet their
-- hypotheses.
mod Decoding
mod Gating
mod Waiting
mod Verdicts
mod Waits
mod Attending
mod Spending
