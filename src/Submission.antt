-- ===== src/Submission.antt =====
-- internal/service/submission_service: submissions, the mails between the components, and the
-- components that submit to Codeforces through bots.
pub mod Model
pub mod Postman
pub mod Monitor
pub mod BotManager
pub mod Master
pub mod Watcher
pub mod Manager
mod Examples
