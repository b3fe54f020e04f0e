-- ===== src/Private/Actions.antt =====
-- client/src/components/room/listener-panel.tsx: the hand, leaving the room, and picking a file.
pub mod Hand
use Prim.Native.String as S
use wave_cast.Common.{
  String, Bool, false, not, ◌&&◌, List, Option, none, some, map, filter, ◌==◌, if◌then◌else◌,
}
use wave_cast.MockData.{alex, room}
use wave_cast.Private.Message.{AttachmentKind, image, video}
use wave_cast.Private.Panel.{Panel, active_friend}
use wave_cast.Private.Compose.{append_p2p_message_with_attachment}
use wave_cast.Private.Attachment.{PickedFile}
use wave_cast.Stores.Speaker.Defs.{SpeakerState, toggle_request}
use wave_cast.Toast.{Toast, plain, success, warning}
use wave_cast.Types.{SpeakerRequest, is_pending}

pub record RaisingHand : Type 0 where
  pub id : String
  pub name : String
  pub avatar : String
  pub requested_at : String

abbrev pub raising_hand : SpeakerRequest → RaisingHand
raising_hand request = record {
  id = request.id;
  name = request.person.name;
  avatar = request.person.avatar;
  requested_at = request.requested_at;
}

unfoldable pub raising_hands : SpeakerState → List RaisingHand
raising_hands st = map raising_hand (
    filter (λ request. is_pending request.status && not (request.person.id == alex.id))
      st.speaker_requests)

-- The toast is shown before the store changes; the id is the one that the store draws.
unfoldable pub handle_request_hand : String → SpeakerState → SpeakerState × Toast
unfolding toggle_request
handle_request_hand fresh st = (
  toggle_request fresh st,
  if st.request_pending
      then record {
        kind = plain;
        title = "Hand lowered";
        description = "You withdrew your request to speak.";
      }
      else record {
        kind = success;
        title = "Hand raised";
        description = "Waiting for the host to approve your request.";
      },
)

unfoldable handle_leave_room : Toast
handle_leave_room = record {
  kind = success;
  title = "You left the room";
  description = S.◌++◌ "You have left " (S.◌++◌ room.title ".");
}

-- The hidden inputs, of which one is clicked.
pub data FileInput : Type 0 where
  image_input video_input file_input : FileInput

abbrev input_of : AttachmentKind → FileInput
input_of image = image_input
input_of video = video_input
input_of kind = file_input

-- Either an input is clicked or a warning shown.
unfoldable open_attachment_picker : AttachmentKind → Panel → Panel × Option FileInput × Option Toast
unfolding active_friend
open_attachment_picker kind p =
    let closed = record p { show_p2p_emoji_picker = false } in
    elim (active_friend p) [
      | none ↦ (
        closed,
        none,
        some (record {
          kind = warning;
          title = "Select a person first";
          description = "Open a private conversation before sending an attachment.";
        }),
      )
      | some friend ↦ (closed, some (input_of kind), none)
    ]

-- The first file that was picked, if any; the input is emptied by the browser's object.
unfoldable handle_attachment_change :
    String → String → AttachmentKind → Option PickedFile → Panel → Panel
unfolding append_p2p_message_with_attachment
handle_attachment_change object_url fresh_id kind picked p =
    append_p2p_message_with_attachment object_url fresh_id picked kind p
