-- ===== src/Private/Compose.antt =====
-- client/src/components/room/listener-panel.tsx: writing and sending private messages.
use Prim.Native.String as S
use wave_cast.Common.{
  String, true, false, ◌||◌, Option, none, some, add, is_empty, to_lower_case, trim, if◌then◌else◌,
}
use wave_cast.MockData.{alex}
use wave_cast.Private.Attachment.{PickedFile, get_attachment_summary}
use wave_cast.Private.Conversations.{append_message}
use wave_cast.Private.Message.{P2pMessage, Reply, Attachment, AttachmentKind, file}
use wave_cast.Reactions.{no_emoji}
use wave_cast.Private.Panel.{Panel, active_friend}

abbrev pub reply_of : Option P2pMessage → Option Reply
reply_of none = none
reply_of (some m) = some (record { name = m.name; text = m.text })

-- A message of the user's own, under the id that `makeMessageId` draws.
abbrev pub own_message : String → String → Option Reply → Option Attachment → P2pMessage
own_message fresh_id text reply_to attachment = record {
  id = fresh_id;
  name = "You";
  avatar = alex.avatar;
  time = "just now";
  text = text;
  reply_to = reply_to;
  is_you = true;
  is_unread = none;
  likes = some 0;
  dislikes = some 0;
  user_reaction = none;
  emoji_reactions = some no_emoji;
  user_emoji_reaction = none;
  attachment = attachment;
}

unfoldable pub send_p2p_message : String → Panel → Panel
unfolding active_friend
send_p2p_message fresh_id p =
    let clean_text = trim p.p2p_text in
    elim (active_friend p) [
      | none ↦ p
      | some friend ↦ if is_empty clean_text || is_empty friend.id then p else record p {
        p2p_conversations =
            append_message friend.id
              (own_message fresh_id clean_text (reply_of p.replying_p2p_message) none)
              p.p2p_conversations;
        p2p_text = "";
        show_p2p_emoji_picker = false;
        replying_p2p_message = none;
      }
    ]

unfoldable pub add_p2p_emoji : String → Panel → Panel
add_p2p_emoji emoji p = record p {
  p2p_text = if is_empty p.p2p_text then emoji else S.◌++◌ p.p2p_text (S.◌++◌ " " emoji);
  show_p2p_emoji_picker = false;
}

abbrev pub shared_label : AttachmentKind → Attachment → String
shared_label file attachment = "a file"
shared_label kind attachment = S.◌++◌ "an " (to_lower_case attachment.source_label)

-- `none` is the file dialog closed without a choice; the first text is the file's object URL.
unfoldable pub append_p2p_message_with_attachment :
    String → String → Option PickedFile → AttachmentKind → Panel → Panel
unfolding active_friend get_attachment_summary add to_lower_case
append_p2p_message_with_attachment object_url fresh_id none kind p = p
append_p2p_message_with_attachment object_url fresh_id (some picked) kind p =
    elim (active_friend p) [
      | none ↦ p
      | some friend ↦
          if is_empty friend.id
          then p
          else (let attachment = get_attachment_summary object_url picked kind in
              record p {
                attachment_urls = add object_url p.attachment_urls;
                p2p_conversations =
                    append_message friend.id
                      (own_message fresh_id
                        (S.◌++◌ "Shared "
                          (S.◌++◌ (shared_label kind attachment) (S.◌++◌ ": " picked.name)))
                        none (some attachment))
                      p.p2p_conversations;
              })
    ]
