-- ===== src/Tests.antt =====
-- Runs of the definitions, and each theorem at an input that meets its hypotheses.
mod Sample
mod SampleTree
mod NodeExamples
mod ArrayExamples
mod EncodingExamples
mod LatchExamples
mod TreeExamples
mod TwoLeaves
