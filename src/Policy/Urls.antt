-- ===== src/Policy/Urls.antt =====
-- What policy.py reads from a URL: host, keywords, and the channel of a YouTube page.
-- `urllib.parse` is given as a record of its two functions; `none` is `urlparse`'s `ValueError`.
use see_no_evil.Prelude.{
  Bool, ◌||◌, ◌&&◌, Option, none, some, List, [], ◌∷◌, ◌++◌, keep, if◌then◌else◌,
}
use see_no_evil.Text.{
  Text, codes, eqb, truthy, lower, lstrip, strip, starts_with, ends_with, contains, split_once,
  split, member,
}

-- The fields of a `ParseResult` that are read.
pub record Url : Type 0 where
  pub netloc : Text
  pub path : Text
  pub query : Text
  pub hostname : Option Text

pub record UrlLib : Type 0 where
  pub urlparse : Text → Option Url
  pub unquote_plus : Text → Text

abbrev pub or_empty : Option Text → Text
or_empty none = []
or_empty (some s) = s

-- `url if "://" in url else f"//{url}"`.
unfoldable pub qualified : Text → Text
unfolding contains
qualified url = if contains (codes "://") url then url else codes "//" ++ url

abbrev on_url {ℓ} : {A : Type ℓ} → Option Url → (Url → A) → Option A
on_url none k = none
on_url (some u) k = some (k u)

module _ (lib : UrlLib) where
  unfoldable pub host_of : Text → Option Text
  unfolding qualified lower
  host_of url = on_url (lib.urlparse (qualified url)) (λ u. lower (or_empty u.hostname))

  unfoldable pub path_query_of : Text → Option Text
  unfolding qualified
  path_query_of url =
      on_url (lib.urlparse (qualified url))
        (λ u. if truthy u.query then u.path ++ (codes "?" ++ u.query) else u.path)

  unfoldable pub url_keyword_text : Text → Option Text
  unfolding qualified lower
  url_keyword_text url = on_url (lib.urlparse (qualified url)) (λ u.
      lower
        (lib.unquote_plus (url ++ (b' ' ∷ (u.netloc ++ (b' ' ∷ (u.path ++ (b' ' ∷ u.query))))))))

-- The loop of `_matched_keyword`.
unfoldable pub keyword_in : List Text → Text → Option Text
unfolding strip lower contains
keyword_in [] text = none
keyword_in (keyword ∷ keywords) text =
    let kw = lower (strip keyword) in
    if truthy kw && contains kw text then some kw else keyword_in keywords text

abbrev pub map_text {ℓ} : {A : Type ℓ} → (Text → A) → Option Text → Option A
map_text f none = none
map_text f (some s) = some (f s)

unfoldable pub matched_keyword : UrlLib → List Text → Text → Option (Option Text)
unfolding keyword_in url_keyword_text
matched_keyword lib keywords url = map_text (keyword_in keywords) (url_keyword_text lib url)

unfoldable pub is_youtube_host : Text → Bool
unfolding lower eqb ends_with
is_youtube_host host =
    let h = lower host in
    eqb h (codes "youtube.com") || ends_with (codes ".youtube.com") h || eqb h (codes "youtu.be")

-- `s.split(sep, 1)[0]`.
abbrev first_part : Option (Text × Text) → Text → Text
first_part none s = s
first_part (some (a, b)) s = a

-- The segments of the path decide: "/@handle", "/channel/id", "/c/name" or "/user/name".
unfoldable pub channel_of_parts : List Text → Option Text
unfolding starts_with lower member
channel_of_parts [] = none
channel_of_parts (p ∷ []) = if starts_with (codes "@") p then some (lower p) else none
channel_of_parts (p ∷ q ∷ parts) =
    if starts_with (codes "@") p
    then some (lower p)
    else if member p (codes "channel" ∷ codes "c" ∷ codes "user" ∷ [])
    then some (lower q)
    else none

unfoldable pub channel_of_path : Text → Option Text
unfolding channel_of_parts split split_once
channel_of_path pq =
    channel_of_parts (keep truthy (split b'/' (first_part (split_once b'?' pq) pq)))

-- `_extract_youtube_channel`; the outer `none` is `ValueError`.
unfoldable pub extract_youtube_channel : UrlLib → Text → Option (Option Text)
unfolding channel_of_path path_query_of
extract_youtube_channel lib url = map_text channel_of_path (path_query_of lib url)

unfoldable pub channel_matches : Text → Text → Bool
unfolding strip lower lstrip eqb
channel_matches pattern channel =
    let p = lstrip b'@' (lower (strip pattern)) in
    let c = lstrip b'@' (lower (strip channel)) in truthy p && truthy c && eqb p c
