-- ===== src/Tests/Links.antt =====
-- client/src/components/room/chat-media-preview.tsx at concrete inputs.
use wave_cast.Common.{
  String, ◌&&◌, ◌≡◌, refl, [], ◌∷◌, Option, none, some, has, is_some, includes, Distinct,
  if◌then◌else◌,
}
use wave_cast.Media.{
  Url, plain, anchor, match_all, get_message_links, chat_message_text, get_file_extension,
}
use wave_cast.Media.Links.{link_urls, clean_urls, get_message_links_lem}
use wave_cast.Media.Pieces.{text_of, chat_message_text-text}

abbrev message : String
message = "see https://a.org/x.png, and http://b.org."

pieces :
    (match_all "https:// http://" ≡ [])
    × (chat_message_text message
        ≡ plain "see "
          ∷ anchor "https://a.org/x.png"
          ∷ plain ","
          ∷ plain " and "
          ∷ anchor "http://b.org"
          ∷ plain "."
          ∷ [])
    × (get_file_extension "/x.y/Z.PNG" ≡ "png")
unfolding match_all chat_message_text get_file_extension
pieces = (refl, refl, refl)

chat_message_text-text_example : text_of (chat_message_text message) ≡ message
chat_message_text-text_example = chat_message_text-text message

-- A browser that knows one host.
abbrev parse : String → Option Url
parse url =
    if includes url "a.org" then some (record { hostname = "a.org"; pathname = "/x.png" }) else none

get_message_links_lem_example :
    Distinct (link_urls (get_message_links parse some message))
    × ((k : String)
        → has k (link_urls (get_message_links parse some message))
          ≡ (has k (clean_urls (match_all message)) && is_some (parse k)))
get_message_links_lem_example = get_message_links_lem parse some message
