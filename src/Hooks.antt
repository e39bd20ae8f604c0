-- ===== src/Hooks.antt =====
-- clients/web/src/hooks: usePushToTalk.ts and useTypingIndicator.ts.
pub mod PushToTalk
pub mod TypingIndicator
