-- ===== src/Media/Cards.antt =====
-- client/src/components/room/chat-media-preview.tsx: the cards below a message with links, without
-- their styling.
use wave_cast.Common.{String, List, Option, none, some, map, length, ltb, if◌then◌else◌}
use wave_cast.Media.{image, video, link, MessageLink, Url, previewed_links}

pub data Look : Type 0 where
  picture film icon : Look

-- What stands before the texts of a card, where a click on the card leads, and where its button for
-- downloading does.
pub record Card : Type 0 where
  pub look : Look
  pub source : Option String
  pub title : String
  pub host : String
  pub opens : Option String
  pub download : Option String

link_preview_card : MessageLink → Card
link_preview_card l = elim l.kind [
  | image ↦ record {
    look = picture;
    source = some l.url;
    title = l.title;
    host = l.host;
    opens = some l.url;
    download = none;
  }
  | video ↦ record {
    look = film;
    source = some l.url;
    title = l.title;
    host = l.host;
    opens = none;
    download = some l.url;
  }
  | link ↦ record {
    look = icon;
    source = none;
    title = l.title;
    host = l.host;
    opens = some l.url;
    download = none;
  }
]

-- The cards, if there are some; the browser's `new URL` and `decodeURIComponent` are arguments.
module _ (parse_url : String → Option Url) (decode_uri_component : String → Option String) where
  unfoldable pub chat_link_previews : String → Option (List Card)
  unfolding previewed_links link_preview_card
  chat_link_previews text =
      let links = previewed_links parse_url decode_uri_component text in
      if ltb 0 (length links) then some (map link_preview_card links) else none
