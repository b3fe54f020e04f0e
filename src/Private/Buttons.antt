-- ===== src/Private/Buttons.antt =====
-- client/src/components/room/listener-panel.tsx: the buttons for the microphone and the hand, their
-- labels and the colours that tell their state.
use wave_cast.Common.{String, List, [], ◌∷◌, if◌then◌else◌}
use wave_cast.Stores.Speaker.Defs.{SpeakerState}

-- The rings from the outer one in, the disc, the icon, and the label with its colour.
pub record MicButton : Type 0 where
  pub rings : List String
  pub disc : String
  pub icon : String
  pub label : String
  pub label_class : String
  pub note : String

abbrev mic_state_text_class : SpeakerState → String
mic_state_text_class st = if st.mic_enabled then "text-emerald-600" else "text-destructive"

unfoldable mic_button : SpeakerState → MicButton
mic_button st = record {
  rings =
      (if st.mic_enabled
        then "border-emerald-500/15 bg-emerald-500/10"
        else "border-destructive/15 bg-destructive/10")
      ∷ (if st.mic_enabled
          then "mic-ring-pulse border-emerald-500/35 bg-emerald-500/10"
          else "border-destructive/30 bg-destructive/10")
      ∷ (if st.mic_enabled then "border-emerald-500/25" else "border-destructive/25")
      ∷ [];
  disc =
      if st.mic_enabled
      then "bg-emerald-500 shadow-emerald-500/30"
      else "bg-destructive shadow-destructive/30";
  icon = if st.mic_enabled then "mic-icon-pulse text-white" else "text-white";
  label = if st.mic_enabled then "Mic On" else "Mic Off";
  label_class = mic_state_text_class st;
  note = "You are visible as a listener";
}

-- The glow, the ring and the three dots around the disc, and the labels with their colours.
pub record HandButton : Type 0 where
  pub glow : String
  pub ring : String
  pub dots : List String
  pub disc : String
  pub icon : String
  pub label : String
  pub label_class : String
  pub note : String
  pub note_class : String

unfoldable hand_button : SpeakerState → HandButton
hand_button st = record {
  glow = if st.request_pending then "bg-yellow-400/20" else "bg-sky-400/20";
  ring = if st.request_pending then "border-yellow-400/25" else "border-sky-400/30";
  dots =
      (if st.request_pending then "bg-yellow-500/55" else "bg-sky-400/55")
      ∷ (if st.request_pending then "bg-yellow-400/65" else "bg-sky-400/65")
      ∷ (if st.request_pending then "bg-yellow-500/45" else "bg-sky-400/45")
      ∷ [];
  disc =
      if st.request_pending
      then "bg-yellow-400 text-yellow-950 shadow-yellow-400/30"
      else "bg-sky-200 text-sky-950 shadow-sky-400/25";
  icon = if st.request_pending then "hand-shake" else "";
  label = if st.request_pending then "Hand Raised" else "Raise Hand";
  label_class = if st.request_pending then "text-yellow-600" else "text-sky-600";
  note = "Request to speak";
  note_class = if st.request_pending then "text-yellow-600" else "text-sky-500";
}
