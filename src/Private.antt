-- ===== src/Private.antt =====
-- client/src/components/room/listener-panel.tsx: private conversations between the members of a
-- room.
pub mod Icons
pub mod Buttons
pub mod Message
pub mod Attachment
pub mod Conversations
pub mod Visible
pub mod Panel
pub mod Compose
pub mod Actions
pub mod Drawer
pub mod Dialogs
