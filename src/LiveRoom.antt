-- ===== src/LiveRoom.antt =====
-- client/src/components/room/live-room-page.tsx: the page of a live room.
pub mod Timer
pub mod Page
pub mod View
pub mod PrivateChat
