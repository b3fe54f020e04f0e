-- ===== src/MockData.antt =====
-- client/src/features/wavecast/mock-data.ts, in three parts. The client holds no other data at
-- the start; `client/src/services/mock-api.ts` (Services) serves these.
mod People
mod Rooms
mod Records
pub use People.*
pub use Rooms.*
pub use Records.*
