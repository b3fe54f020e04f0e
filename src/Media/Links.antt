-- ===== src/Media/Links.antt =====
-- client/src/components/room/chat-media-preview.tsx: which links of a message are previewed.
use wave_cast.Common.{
  ℕ, String, not, ◌&&◌, ◌≡◌, refl, List, [], ◌∷◌, Option, map, has, is_some, Distinct, arith,
  Bool-cases, Option-cases, inl, inr, eq_iff, eq_refl,
}
use wave_cast.Media.{Url, MessageLink, match_all, collect_links, get_message_links}
use wave_cast.Urls.{sanitize_url}

-- The matches without the punctuation at their ends.
abbrev pub clean_urls : List (ℕ × String) → List String
clean_urls = map (λ m. (sanitize_url m.1).0)

abbrev pub link_urls : List MessageLink → List String
link_urls = map (λ l. l.url)

module _ (parse_url : String → Option Url) (decode : String → Option String) where
  has-collect_links :
      (k : String) (seen : List String) (ms : List (ℕ × String))
      → has k (link_urls (collect_links parse_url decode seen ms))
        ≡ (has k (clean_urls ms) && is_some (parse_url k) && not (has k seen))
  unfolding collect_links
  has-collect_links k seen [] = refl
  has-collect_links k seen ((i, raw) ∷ ms) =
      let url = (sanitize_url raw).0 in
      elim (Bool-cases (has url seen)) [
        | inl known ↦
            rw (collect_links, known, has-collect_links k seen ms)
              (ground (arith, eq_iff url k, known))
        | inr new ↦ elim (Option-cases (parse_url url)) [
          | inl throws ↦
              rw (collect_links, new, throws, has-collect_links k seen ms)
                (ground (arith, eq_iff url k, throws))
          | inr (parsed, good) ↦
              rw (collect_links, new, good, has-collect_links k (url ∷ seen) ms)
                (ground (arith, eq_iff url k, new, good))
        ]
      ]

  Distinct-collect_links :
      (seen : List String) (ms : List (ℕ × String))
      → Distinct (link_urls (collect_links parse_url decode seen ms))
  unfolding collect_links
  Distinct-collect_links seen [] = tt
  Distinct-collect_links seen ((i, raw) ∷ ms) =
      let url = (sanitize_url raw).0 in
      elim (Bool-cases (has url seen)) [
        | inl known ↦ rw (collect_links, known) (Distinct-collect_links seen ms)
        | inr new ↦ elim (Option-cases (parse_url url)) [
          | inl throws ↦ rw (collect_links, new, throws) (Distinct-collect_links seen ms)
          | inr (parsed, good) ↦
              rw (collect_links, new, good)
                (
                  rw (has-collect_links url (url ∷ seen) ms) (ground (arith, eq_refl url)),
                  Distinct-collect_links (url ∷ seen) ms,
                )
        ]
      ]

  -- The links of a message: no two have the same URL, and a URL has a link exactly if it is one of
  -- the text's matches without the punctuation at the end and the browser can parse it.
  pub get_message_links_lem :
      (text : String)
      → Distinct (link_urls (get_message_links parse_url decode text))
        × ((k : String)
            → has k (link_urls (get_message_links parse_url decode text))
              ≡ (has k (clean_urls (match_all text)) && is_some (parse_url k)))
  unfolding get_message_links
  get_message_links_lem text = (
    Distinct-collect_links [] (match_all text),
    λ k. rw (has-collect_links k [] (match_all text)) (ground arith),
  )
