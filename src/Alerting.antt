-- ===== src/Alerting.antt =====
-- pkg/alerting: the scheduler, the executor and the handling of results.
pub mod Eval
pub mod Execute
pub mod Emails
pub mod Schedule
