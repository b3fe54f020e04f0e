-- ===== src/Private/Icons.antt =====
-- client/src/components/room/listener-panel.tsx: which icon stands for a role and for a file, and in
-- which tone.
use wave_cast.Common.{String, if◌then◌else◌, ◌==◌}
use wave_cast.Private.Message.{AttachmentKind}
use wave_cast.Types.{UserRole, role_text}

pub data Icon : Type 0 where
  users mic picture film file paperclip : Icon

-- A role is compared by its text.
unfoldable get_role_icon : UserRole → Icon × String
get_role_icon role =
    if role_text role == "Listener"
    then (users, "text-chart-3")
    else (if role_text role == "Speaker" then (mic, "text-chart-2") else (mic, "text-chart-4"))

unfoldable get_attachment_icon : AttachmentKind → Icon
get_attachment_icon AttachmentKind.image = picture
get_attachment_icon AttachmentKind.video = film
get_attachment_icon AttachmentKind.other = Icon.file
get_attachment_icon AttachmentKind.file = paperclip
