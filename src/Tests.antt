-- ===== src/Tests.antt =====
-- Runs of the models on the data of the client's mock module, and the properties at concrete
-- inputs.
mod Rooms
mod Chats
mod Panels
mod Lists
mod Links
mod Profile
mod Pages
