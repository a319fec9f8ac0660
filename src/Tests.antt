-- ===== src/Tests.antt =====
-- Runs of the model at concrete inputs: the theorems applied where their hypotheses hold, and the
-- values of the main functions.
mod Sample
mod Data
mod Values
mod Reading
mod Running
mod Systems
mod Whole
mod Lives
mod Turns
