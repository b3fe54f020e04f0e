-- ===== src/Private/Drawer/Rows.antt =====
-- client/src/components/room/listener-panel.tsx: the rows of the drawer, without their styling.
use Prim.Native.String.{◌++◌}
use wave_cast.Common.{
  ℕ, String, Bool, List, Option, none, some, map, or_else, head?, split, ltb, is_empty,
  if◌then◌else◌,
}
use wave_cast.Media.{Piece, chat_message_text}
use wave_cast.Private.Attachment.{format_attachment_size}
use wave_cast.Private.Message.{
  P2pMessage, Attachment, AttachmentKind, Reply, get_p2p_reaction_count, has_p2p_user_reaction,
  get_visible_p2p_reactions,
}
use wave_cast.Private.Visible.{P2pChatListEntry}
use wave_cast.Reactions.{QuickReaction}
use wave_cast.Types.{Person, UserRole, role_text}

-- `getRoleTone`
abbrev pub get_role_tone : UserRole → String
get_role_tone UserRole.speaker = "warning"
get_role_tone UserRole.listener = "neutral"
get_role_tone UserRole.host = "brand"
get_role_tone UserRole.moderator = "danger"
get_role_tone UserRole.admin = "neutral"

pub data Preview : Type 0 where
  picture film row : Preview

-- The preview of an attachment: how it is drawn, its title, its name, the line below, and the URL
-- to download it from.
pub record AttachmentPreview : Type 0 where
  pub preview : Preview
  pub source : Option String
  pub title : String
  pub detail : String
  pub download : Option String

abbrev preview_of : AttachmentKind → String → Preview
preview_of AttachmentKind.image url = if is_empty url then row else picture
preview_of AttachmentKind.video url = if is_empty url then row else film
preview_of _ url = row

abbrev title_of : Preview → Attachment → String
title_of row attachment = attachment.source_label
title_of _ attachment = attachment.name

render_attachment_preview : Attachment → AttachmentPreview
unfolding format_attachment_size
render_attachment_preview attachment =
    let preview = preview_of attachment.type (or_else attachment.preview_url "") in
    record {
      preview = preview;
      source = attachment.preview_url;
      title = title_of preview attachment;
      detail = or_else attachment.mime_type "" ++ format_attachment_size attachment.size;
      download =
          if is_empty (or_else attachment.download_url "") then none else attachment.download_url;
    }

-- An entry of the list of chats.
pub record ChatRow : Type 0 where
  pub name : String
  pub role : String
  pub role_tone : String
  pub is_active : Bool
  pub badge : Option ℕ
  pub hand_up : Bool
  pub text : String
  pub time : Option String

abbrev last_text : Person → Option P2pMessage → String
last_text person none = or_else (head? (split b' ' person.name)) "" ++ " says hi first!"
last_text person (some message) = message.text

abbrev last_time : Option P2pMessage → Option String
last_time none = none
last_time (some message) = some message.time

abbrev pub count_badge : ℕ → Option ℕ
count_badge n = if ltb 0 n then some n else none

unfoldable pub chat_row : P2pChatListEntry → ChatRow
unfolding split
chat_row entry = record {
  name = entry.person.name;
  role = role_text entry.person.role;
  role_tone = get_role_tone entry.person.role;
  is_active = entry.is_active;
  badge = count_badge entry.unread_count;
  hand_up = entry.is_hand_raised;
  text = last_text entry.person entry.last_message;
  time = last_time entry.last_message;
}

pub record P2pReactionButton : Type 0 where
  pub reaction : QuickReaction
  pub count : ℕ
  pub is_pressed : Bool

pub record P2pMessageRow : Type 0 where
  pub is_you : Bool
  pub name : String
  pub time : String
  pub quote : Option Reply
  pub pieces : List Piece
  pub attachment : Option AttachmentPreview
  pub reactions : List P2pReactionButton

unfoldable pub p2p_message_row : P2pMessage → P2pMessageRow
unfolding render_attachment_preview get_p2p_reaction_count has_p2p_user_reaction
    get_visible_p2p_reactions chat_message_text
p2p_message_row message = record {
  is_you = message.is_you;
  name = message.name;
  time = message.time;
  quote = message.reply_to;
  pieces = chat_message_text message.text;
  attachment = elim message.attachment [
    | none ↦ none
    | some attachment ↦ some (render_attachment_preview attachment)
  ];
  reactions =
      map
        (λ reaction. record {
          reaction = reaction;
          count = get_p2p_reaction_count message reaction;
          is_pressed = has_p2p_user_reaction message reaction;
        })
        (get_visible_p2p_reactions message);
}
