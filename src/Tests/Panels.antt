-- ===== src/Tests/Panels.antt =====
-- client/src/components/room: room-side-panel.tsx, stage-panel.tsx and live-room-page.tsx at
-- concrete inputs.
use mathlib.Core.List.{Perm}
use wave_cast.Common.{
  ◌+◌, String, true, false, not, Bool, ◌≡◌, refl, List, [], ◌∷◌, none, some, ◌&&◌, ◌||◌, has,
  Distinct, arith, ◌==◌, if◌then◌else◌, map, ◌++◌, All, trim,
}
use wave_cast.Common.Int.{pos, negsuc}
use wave_cast.LiveRoom.Page as Page
use wave_cast.LiveRoom.Page.Invites.{invite_all, is_invited, asked}
use wave_cast.LiveRoom.View.{rows_not_in_room}
use wave_cast.LiveRoom.View.Menu.{offers, invite_all-offers}
use wave_cast.LiveRoom.Timer.{format_timer, parse_duration}
use wave_cast.LiveRoom.Timer.RoundTrip.{parse_duration-format_timer}
use wave_cast.MockData.{alex, people, person_at, room}
use wave_cast.Private.Attachment.{format_attachment_size}
use wave_cast.Reactions.{QuickReaction, thumbs_up, joy, heart}
use wave_cast.Reactions.Laws.{one_if}
use wave_cast.Reactions.Reactable.{tap_all, taps_own}
use wave_cast.RoomChat.Message.{
  seed_room_messages, RoomChatMessage, get_room_reaction_count, has_room_user_reaction,
}
use wave_cast.RoomChat.Message.Laws.{IsTallied, room_reactable, tap_all_lem}
use wave_cast.RoomChat.Panel as Side
use wave_cast.RoomChat.Panel.Chat.{
  Act, write, emoji, send, tap, kick, acts, transcript, nothing_said, line,
}
use wave_cast.RoomChat.Panel.Chat.Follows.{acts-transcript}
use wave_cast.RoomChat.Panel.People.{member, may_kick, handle_kick_person_lem}
use wave_cast.Stage.{Stage, on_stage_ids, add_speaker_to_stage}
use wave_cast.Stage.Cards.{layout}
use wave_cast.Stage.Cards.Shown.{shown, layout-perm}
use wave_cast.Stage.Laws.{queued, add_speaker_to_stage_lem}
use wave_cast.Stores.Speaker.Defs as Speaker
use wave_cast.Types.{Person}

durations :
    (parse_duration "01:23:45" ≡ pos 5025)
    × (parse_duration "45:30" ≡ pos 2730)
    × (parse_duration "-" ≡ pos 0)
    × (format_timer (pos 5025) ≡ "01:23:45")
    × (format_timer (negsuc 4) ≡ "00:00:00")
    × (format_timer (pos 360000) ≡ "100:00:00")
unfolding parse_duration format_timer
durations = (refl, refl, refl, refl, refl, refl)

sizes :
    (format_attachment_size (some 1536) ≡ " · 1.5 KB")
    × (format_attachment_size (some 1048575) ≡ " · 1024 KB")
    × (format_attachment_size (some 1048576) ≡ " · 1.0 MB")
unfolding format_attachment_size
sizes = (refl, refl, refl)

parse_duration-format_timer_example : parse_duration (format_timer (pos 5025)) ≡ pos 5025
parse_duration-format_timer_example = parse_duration-format_timer 5025

abbrev greeting : RoomChatMessage
greeting = record (Side.own_room_message alex "m1" "hello" none) {
  likes = 3;
  emoji_reactions = none;
}

greeting-IsTallied : IsTallied greeting
greeting-IsTallied = record {
  thumbs = record { up = omega arith; down = omega arith };
  emojis = record {
    no_thumbs_up = refl;
    no_thumbs_down = refl;
    joys = omega arith;
    hearts = omega arith;
    fires = omega arith;
  };
}

abbrev taps : List QuickReaction
taps = joy ∷ thumbs_up ∷ heart ∷ []

tap_all_lem_example :
    (get_room_reaction_count (tap_all taps greeting) heart
        + one_if (has_room_user_reaction greeting heart)
      ≡ get_room_reaction_count greeting heart
        + one_if (has_room_user_reaction (tap_all taps greeting) heart))
    × (has_room_user_reaction (tap_all taps greeting) heart
        ≡ taps_own taps (has_room_user_reaction greeting) heart)
tap_all_lem_example = tap_all_lem taps heart greeting greeting-IsTallied

handle_kick_person_lem_example :
    (member "user_sarah" (Side.handle_kick_person alex true (person_at 3) Side.initial).0 ≡ (
      if may_kick alex true (person_at 3) && (person_at 3).id == "user_sarah"
      then none
      else member "user_sarah" Side.initial))
    × (has "user_sarah"
          (Side.handle_kick_person alex true (person_at 3) Side.initial).0.requested_ids
        ≡ (has "user_sarah" Side.initial.requested_ids
            && not (may_kick alex true (person_at 3) && (person_at 3).id == "user_sarah")))
    × ((Side.handle_kick_person alex true (person_at 3) Side.initial).0.room_messages
        ≡ Side.initial.room_messages)
handle_kick_person_lem_example =
    handle_kick_person_lem alex (person_at 3) true Side.initial "user_sarah"

abbrev kicks : List (Person × Bool × String)
kicks = (alex, true, "user_brian") ∷ (person_at 0, true, "user_brian") ∷ []

abbrev two_people : Side.SidePanel
two_people = record {
  room_people = alex ∷ person_at 3 ∷ [];
  room_messages = seed_room_messages;
  requested_ids = [];
  chat_text = "";
  show_room_emoji_picker = false;
  replying_to_message = none;
}

-- The user and another speaker on stage, with the microphone on.
abbrev talking : Stage
talking = record {
  on_stage_speakers = person_at 0 ∷ alex ∷ [];
  open_invite_menu = false;
  raise_hand_pulse = none;
  seen_request_ids = none;
  pulse_timer = none;
  store = record (Speaker.initial) { mic_enabled = true };
}

talking-Distinct : Distinct (on_stage_ids talking)
unfolding on_stage_ids
talking-Distinct = (refl, (refl, tt))

add_speaker_to_stage_lem_example :
    Distinct (on_stage_ids (add_speaker_to_stage (person_at 6) (some "request_wade") talking).0)
    × ((k : String)
        → has k (on_stage_ids (add_speaker_to_stage (person_at 6) (some "request_wade") talking).0)
          ≡ (has k (on_stage_ids talking) || (person_at 6).id == k))
    × (queued (person_at 6).id (add_speaker_to_stage (person_at 6) (some "request_wade") talking).0
        ≡ false)
add_speaker_to_stage_lem_example =
    add_speaker_to_stage_lem (person_at 6) (some "request_wade") talking talking-Distinct

layout-perm_example : Perm (shown (layout talking).1) talking.on_stage_speakers
layout-perm_example = layout-perm talking talking-Distinct

abbrev invitations : List (String × String)
invitations = ("user_wade", "Wade") ∷ ("user_new", "New") ∷ ("user_new", "New") ∷ []

invite_all-offers_example :
    let requests = offers (rows_not_in_room room people Page.initial) in
    (offers (rows_not_in_room room people (invite_all room requests Page.initial)) ≡ [])
    × ((k : String)
        → is_invited k (invite_all room requests Page.initial)
          ≡ (is_invited k Page.initial || asked k requests))
invite_all-offers_example = invite_all-offers room people Page.initial

-- A blank message is not sent; a reaction and a removal leave the transcript as it is.
abbrev evening : List Act
evening =
    write "  "
    ∷ send "a"
    ∷ write " hello "
    ∷ emoji "x"
    ∷ send "b"
    ∷ tap "seed-room-message-sarah" heart
    ∷ kick true (person_at 6)
    ∷ write "bye"
    ∷ []

said_then : transcript evening nothing_said ≡ record { text = "bye"; said = ("b", "hello  x") ∷ [] }
unfolding trim
said_then = refl

acts-transcript_example :
    let p = acts alex evening Side.initial in
    let s = transcript evening nothing_said in
    (map line p.room_messages ≡ map line seed_room_messages ++ s.said)
    × (p.chat_text ≡ s.text)
    × All IsTallied p.room_messages
acts-transcript_example = acts-transcript alex evening
