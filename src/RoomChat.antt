-- ===== src/RoomChat.antt =====
-- client/src/components/room/room-side-panel.tsx: the chat and the people of a room.
pub mod Message
pub mod Panel
pub mod Rows
