-- ===== src/Lib.antt =====
-- Wave Cast is a browser client for live audio rooms (client/src) with a server in Go. This
-- library models the client's own logic: its data, its four stores, and the state, derived values
-- and handlers of the panels of a room and of the pages of one's rooms, of the profile and of a
-- room's settings, and of the bars above them. The panels interact through
-- the stores only: a handler that calls an action of a store is modelled on a state that holds the
-- store, and calls that action's definition.
--
-- Files and what they model:
--   Common: lists, maps in insertion order, sets of ids, text operations, decimal numbers, signed
--     integers and the stable sort of the language.
--   Types: client/src/types/wavecast.ts. MockData: client/src/features/wavecast/mock-data.ts.
--   Stores/Reminder, Stores/Speaker, Stores/Ui, Stores/Playback: client/src/stores, a record and
--     one function for each action.
--   Reactions: the counting of likes and of emoji reactions in listener-panel.tsx; RoomChat/Message
--     has that of room-side-panel.tsx, which is written out apart. Reactable is the interface of a
--     message that can be reacted to, which both chats fill; Agreement compares them.
--   Private: client/src/components/room/listener-panel.tsx, private messages. Message has messages
--     and reactions, Attachment the summary of a picked file, Conversations the map of
--     conversations, Visible the list in the drawer, Panel the state, effects and handlers
--     (Typing the note that the friend is typing, Transcript the messages, both over a whole
--     visit), Compose writing and sending.
--     Actions raises the hand and picks files, Drawer, Dialogs, Buttons and Icons are what the
--     panel shows.
--   Urls, Media: client/src/components/room/chat-media-preview.tsx, the links in a message: Urls
--     the patterns and cutting texts, Media the list of links, the pieces of a text and the
--     cards of links.
--   RoomChat: client/src/components/room/room-side-panel.tsx, the room's messages and people,
--     (Panel/Chat) the chat over a whole visit, and (Rows) what its tabs show.
--   Toast: the messages that handlers hand to the toast library.
--   Stage: client/src/components/room/stage-panel.tsx, the people on stage, their cards
--     (Cards), the menu that brings people up (Invite), the note on a raised hand (Pulse)
--     and what is clicked there and on the buttons of the hand and the microphone (Session).
--   LiveRoom: client/src/components/room/live-room-page.tsx. Timer has durations as text, Page
--     the invitations, the private chat target, the clock and ending the room, View what the page
--     shows and its menus, PrivateChat the button that opens a chat in the listener panel.
--   MyRooms: client/src/app/my-room/page.tsx, the agenda; Card is what a card, the panel
--     and (Board) the page show, Visits how the page and the sidebar act on it together.
--   Profile: client/src/app/profile/page.tsx. Microphone is the microphone test (Phases one test at
--     a time, Answers how it ends, Frames its loop of frames, Leaks what is left when it fails), Voice the level of a voice, Page the devices, the choice of one (Select) and the
--     picture (Avatar), View what the page shows.
--   RoomSettings: client/src/app/room-settings/page.tsx, Ids the lists of ids in a text,
--     Tabs what the page shows.
--   TopBar: client/src/components/common, the state of the network and the notifications.
--   Widgets: small components of client/src/components. Hands: the raised hands as the stage, the
--     store and the listener panel show them, Left a hand that stays raised.
--   Sidebar: client/src/components/room/live-sidebar.tsx, topics and the search for rooms.
--   Primitives: badges, dots and line charts. Services: client/src/services.
--   Tests: runs on concrete data.
--
-- How code and definitions correspond: a component's `useState` cells and refs are the fields of a
-- record, a handler is a function from the record to the record, with the last toast where it
-- shows one, an effect is a function that runs after the change that triggers it, and a timer that
-- fires is a step. Names are those of the code in lower case with underscores. A `Set` of ids is a
-- list without repetition; a `Map` or an object used as one is a list of pairs in insertion order.
-- What the code draws or is told from outside is an argument: message ids (`makeMessageId`),
-- object URLs, the browser's `URL` and `decodeURIComponent`, the answer to `window.confirm`,
-- `localeCompare`, and whether React has run a state updater by the time that a variable which it
-- sets is read. What a page awaits is an event: the microphone test is a function on events, which
-- may come in any order, and a promise that nothing waits for any more changes nothing; what the
-- browser keeps (streams, audio contexts, frames, object URLs) is part of the state. The rounded
-- level of a sum of squares is an argument. Where a proof speaks of any current user, the user is
-- an argument too.
--
-- Bounds: numbers of seconds, counts and sizes are unbounded naturals or integers, as the code's
-- numbers are exact below 2^53; decimal texts agree with the language's below 10^21. The digits of
-- n are written with fuel n + 1, one digit for each unit, and a number has no more digits than
-- that. Other recursion is structural. `toLowerCase` is modelled on the letters A to Z.
--
-- Not modelled: most styles, layout and animation, numbers written
-- by `toLocaleString`, the drawing of charts and the wrappers of libraries (client/src/components/ui),
-- the search box and the logo, which have no logic, and the server in Go, which is another program.
pub mod Common
pub mod Types
pub mod MockData
pub mod Stores
pub mod Reactions
pub mod Private
pub mod RoomChat
pub mod Toast
pub mod Stage
pub mod LiveRoom
pub mod MyRooms
pub mod Sidebar
pub mod Urls
pub mod Media
pub mod Profile
pub mod RoomSettings
pub mod TopBar
pub mod Widgets
pub mod Primitives
pub mod Services
pub mod Hands
mod Tests
