-- ===== src/Profile/Page/Avatar.antt =====
-- client/src/app/profile/page.tsx: the picture of the user and its object URL.
use wave_cast.Common.{
  ap, String, not, ◌≡◌, refl, ◌⊎◌, inl, inr, List, [], ◌∷◌, ◌++◌, Option, none, some, filter, ◌==◌,
  arith, eq_refl,
}
use wave_cast.MockData.{alex}
use wave_cast.Profile.Page.{Profile, initial}

abbrev revoke : Option String → List String → List String
revoke none urls = urls
revoke (some url) urls = filter (λ u. not (u == url)) urls

-- A file is its name and the object URL that the browser makes for it; none is no file.
handle_avatar_change : Option (String × String) → Profile → Profile
handle_avatar_change none p = p
handle_avatar_change (some (name, preview_url)) p = record p {
  object_urls = revoke p.avatar_object_url p.object_urls ++ preview_url ∷ [];
  avatar_object_url = some preview_url;
  avatar_preview = some preview_url;
  avatar_file_name = name;
}

-- The value of the file input, which is emptied too, belongs to the browser.
remove_avatar : Profile → Profile
remove_avatar p = record p {
  object_urls = revoke p.avatar_object_url p.object_urls;
  avatar_object_url = none;
  avatar_preview = none;
  avatar_file_name = "";
}

-- The clean-up of the effect.
pub leave : Profile → Profile
leave p = record p { object_urls = revoke p.avatar_object_url p.object_urls }

-- What the user does to the picture: a file picked, or the picture removed.
pub data Pick : Type 0 where
  change : Option (String × String) → Pick
  remove : Pick

pick : Pick → Profile → Profile
unfolding handle_avatar_change remove_avatar
pick (change file) = handle_avatar_change file
pick remove = remove_avatar

pub picks : List Pick → Profile → Profile
unfolding pick
picks [] p = p
picks (k ∷ ks) p = picks ks (pick k p)

abbrev to_list : Option String → List String
to_list none = []
to_list (some url) = url ∷ []

-- The URLs that are kept are that of the picture, and the picture that is shown is that one, or
-- none, or the one the user came with.
abbrev Held : Option String → Option String → List String → Type 0
Held none shown urls = (urls ≡ []) × ((shown ≡ none) ⊎ (shown ≡ some alex.avatar))
Held (some url) shown urls = (urls ≡ url ∷ []) × (shown ≡ some url)

abbrev pub IsHeld : Profile → Type 0
IsHeld p = Held p.avatar_object_url p.avatar_preview p.object_urls

revoke-Held :
    (url shown : Option String) (urls : List String) → Held url shown urls → revoke url urls ≡ []
revoke-Held none shown urls (same, _) = same
revoke-Held (some url) shown urls (same, _) = ground (arith, eq_refl url)

pick-Held : (k : Pick) (p : Profile) → IsHeld p → IsHeld (pick k p)
unfolding pick handle_avatar_change remove_avatar
pick-Held (change none) p h = h
pick-Held (change (some (name, url))) p h = (
  ap (λ us. us ++ url ∷ []) (revoke-Held p.avatar_object_url p.avatar_preview p.object_urls h),
  refl,
)
pick-Held remove p h = (revoke-Held p.avatar_object_url p.avatar_preview p.object_urls h, inl refl)

picks-Held : (ks : List Pick) (p : Profile) → IsHeld p → IsHeld (picks ks p)
unfolding picks
picks-Held [] p h = h
picks-Held (k ∷ ks) p h = picks-Held ks (pick k p) (pick-Held k p h)

-- Whatever files are picked and however often the picture is removed, the browser keeps no
-- object URL but that of the picture that is shown, and none when the page is left.
pub picks-IsHeld :
    (ks : List Pick) → IsHeld (picks ks initial) × ((leave (picks ks initial)).object_urls ≡ [])
unfolding initial leave
picks-IsHeld ks =
    let h = picks-Held ks initial (refl, inr refl) in
    let p = picks ks initial in
    (h, revoke-Held p.avatar_object_url p.avatar_preview p.object_urls h)
