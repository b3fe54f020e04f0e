-- ===== src/Profile.antt =====
-- client/src/app/profile/page.tsx: the user's devices, picture and microphone test.
pub mod Voice
pub mod Microphone
pub mod Page
pub mod View
