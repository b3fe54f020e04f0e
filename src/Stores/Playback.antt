-- ===== src/Stores/Playback.antt =====
-- client/src/stores/playback-store.ts.
use wave_cast.Common.{Bool, false, not}

pub data PlaybackStatus : Type 0 where
  idle connecting playing stalled : PlaybackStatus

pub record PlaybackState : Type 0 where
  pub status : PlaybackStatus
  pub muted : Bool

abbrev pub initial : PlaybackState
initial = record { status = playing; muted = false }

unfoldable set_status : PlaybackStatus → PlaybackState → PlaybackState
set_status s st = record st { status = s }

unfoldable toggle_muted : PlaybackState → PlaybackState
toggle_muted st = record st { muted = not st.muted }
