-- ===== src/Mail.antt =====
-- src/mail/mail.service.ts: the mails with a link.
pub mod Escape
pub mod Html
pub mod Reading
pub mod Service
