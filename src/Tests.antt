-- ===== src/Tests.antt =====
-- Tests and the theorems at concrete inputs.
mod Fixtures
mod Brain
mod Histories
mod Actions
mod Access
mod Queue
mod Answers
mod Feedback
mod Trail
mod Alerts
mod Responses
mod Reviews
mod Cases
