-- ===== src/Gateway.antt =====
-- The Data Boundary Gateway, src/modules/gateway/: what counts as sensitive, how it is masked, and
-- what may be sent to an external model.
pub mod Regex
pub mod Checks
pub mod Recognizers
pub mod Findings
pub mod Coverage
pub mod Redaction
pub mod Boundary
pub mod Samples
pub mod Examples
