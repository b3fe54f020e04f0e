-- ===== src/Private/Attachment.antt =====
-- client/src/components/room/listener-panel.tsx: what is shown of an attached file.
use Prim.Native.String as S
use wave_cast.Common.{
  ℕ, ◌*◌, String, Bool, Option, none, some, is_empty, ltb, leb, eqb, if◌then◌else◌,
}
use wave_cast.Common.Decimal.{to_fixed_zero, to_fixed_one}
use wave_cast.Private.Message.{Attachment, AttachmentKind, file, image, video, other}

get_attachment_label : AttachmentKind → String
get_attachment_label image = "Image"
get_attachment_label video = "Video"
get_attachment_label other = "Other"
get_attachment_label file = "File"

-- Dividing by 1024 is exact in the language's numbers, so that the size in KB is the fraction
-- size / 1024 and that in MB size / 1024 ^ 2.
unfoldable pub format_attachment_size : Option ℕ → String
unfolding to_fixed_zero to_fixed_one
format_attachment_size none = ""
format_attachment_size (some size) =
    if eqb size 0
    then ""
    else (if ltb size (1024 * 1024)
        then S.◌++◌ " · " (
            S.◌++◌
              (if leb (100 * 1024) size then to_fixed_zero size 1024 else to_fixed_one size 1024)
              " KB")
        else S.◌++◌ " · " (
            S.◌++◌
              (if leb (100 * (1024 * 1024)) size
                then to_fixed_zero size (1024 * 1024)
                else to_fixed_one size (1024 * 1024))
              " MB"))

-- What the browser says of a file that the user picked.
pub record PickedFile : Type 0 where
  pub name : String
  pub size : ℕ
  pub type : String

abbrev summary_kind : AttachmentKind → AttachmentKind
summary_kind other = file
summary_kind kind = kind

abbrev has_preview : AttachmentKind → Bool
has_preview image = Bool.true
has_preview video = Bool.true
has_preview _ = Bool.false

-- The URL is the one that `URL.createObjectURL` returns for the file.
unfoldable pub get_attachment_summary : String → PickedFile → AttachmentKind → Attachment
unfolding get_attachment_label
get_attachment_summary object_url picked kind = record {
  type = summary_kind kind;
  name = picked.name;
  size = some picked.size;
  mime_type = some (if is_empty picked.type then "application/octet-stream" else picked.type);
  source_label = get_attachment_label (summary_kind kind);
  preview_url = if has_preview (summary_kind kind) then some object_url else none;
  download_url = some object_url;
}
