-- ===== src/Guardrails.antt =====
-- src/tryops/guardrails.py: what is done to a prompt and to an answer around a generation.
pub mod Redaction
pub mod Order
pub mod Spans
pub mod Greedy
pub mod Masked
pub mod Findings
pub mod Ingress
pub mod First
pub mod Merge
pub mod Kept
pub mod Stages
pub mod Structure
pub mod Passing
mod Tests
