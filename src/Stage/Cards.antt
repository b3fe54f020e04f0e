-- ===== src/Stage/Cards.antt =====
-- client/src/components/room/stage-panel.tsx: the cards of the speakers and their four layouts,
-- without their styling.
pub mod Shown
use Prim.Native.String as S
use wave_cast.Common.{
  ℕ, ◌+◌, String, Bool, true, false, not, ◌&&◌, ◌||◌, List, [], ◌∷◌, Option, none, some, map,
  filter, has, length, ◌==◌, if◌then◌else◌,
}
use wave_cast.Common.Decimal.{show}
use wave_cast.MockData.{alex}
use wave_cast.Stage.{
  Stage, current_user_speaker, is_current_user_speaking, active_speaker_ids, active_speakers,
  has_single_active_speaker, has_multiple_active_speakers, focused_speaker, visible_speakers,
}
use wave_cast.Types.{Person, is_host}

-- The options of a card, each false unless it is given.
pub data Options : Type 0 where
  plain compact primary primary_focus : Options

abbrev is_compact : Options → Bool
is_compact compact = true
is_compact _ = false

abbrev is_primary : Options → Bool
is_primary primary = true
is_primary primary_focus = true
is_primary _ = false

abbrev is_current_user_focus : Options → Bool
is_current_user_focus primary_focus = true
is_current_user_focus _ = false

-- The width of the ring around an active speaker is that of the innermost of three.
pub record SpeakerCard : Type 0 where
  pub person : Person
  pub options : Options
  pub is_active : Bool
  pub avatar_size : ℕ
  pub ring : Option ℕ
  pub status_text : String

abbrev status_of : Bool → Bool → Bool → String
status_of is_host is_active focus =
    if is_host
    then (if is_active then "Host • Speaking" else (if focus then "You • Speaking" else "Host"))
    else (if focus then "You • Speaking" else "Speaker")

pub render_speaker_card : Stage → Options → Person → SpeakerCard
unfolding active_speaker_ids
render_speaker_card st options speaker =
    let is_current_user = speaker.id == alex.id in
    let is_active =
      has speaker.id (active_speaker_ids st) && (not is_current_user || st.store.mic_enabled) in
    let avatar_size = if is_primary options then 92 else (if is_compact options then 54 else 74) in
    let ring_room = if is_primary options then 34 else (if is_compact options then 26 else 28) in
    record {
      person = speaker;
      options = options;
      is_active = is_active;
      avatar_size = avatar_size;
      ring = if is_active then some (avatar_size + ring_room) else none;
      status_text = status_of (is_host speaker.role) is_active (is_current_user_focus options);
    }

pub data Layout : Type 0 where
  current_user multiple single grid : Layout

abbrev pub prioritized : Stage → Option Person
prioritized st = if is_current_user_speaking st then current_user_speaker st else none

abbrev pub focused : Stage → Option Person
focused st = if has_single_active_speaker st then focused_speaker st else none

-- The layouts while the current user does not come first.
pub other_layout : Stage → Layout × List SpeakerCard
unfolding render_speaker_card has_multiple_active_speakers has_single_active_speaker focused_speaker
other_layout st =
    if has_multiple_active_speakers st
    then (multiple, map (render_speaker_card st compact) st.on_stage_speakers)
    else elim (focused st) [
      | some speaker ↦ (
        single,
        render_speaker_card st primary speaker
            ∷ map (render_speaker_card st compact)
                (filter (λ s. not (s.id == speaker.id)) st.on_stage_speakers),
      )
      | none ↦ (grid, map (render_speaker_card st plain) st.on_stage_speakers)
    ]

pub layout : Stage → Layout × List SpeakerCard
unfolding other_layout render_speaker_card is_current_user_speaking current_user_speaker
    visible_speakers
layout st = elim (prioritized st) [
  | some speaker ↦ (
    current_user,
    render_speaker_card st primary_focus speaker
        ∷ map (render_speaker_card st compact) (visible_speakers st),
  )
  | none ↦ other_layout st
]

-- The line above the cards.
unfoldable heading : Stage → String
unfolding active_speakers show
heading st = S.◌++◌ "ON STAGE — " (
    S.◌++◌ (show (length st.on_stage_speakers))
      (S.◌++◌ " • " (S.◌++◌ (show (length (active_speakers st))) " speaking")))
