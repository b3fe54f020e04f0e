-- ===== src/Stores.antt =====
-- client/src/stores: the state that the components of the client share. A store is a record, and
-- an action a function from the state to the next one.
pub mod Playback
pub mod Reminder
pub mod Speaker
pub mod Ui
