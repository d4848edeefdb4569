-- ===== src/Intel/Reddit.antt =====
-- Reddit in src/providers/sentiment.py: the token, the entries of the three subreddits, the counts by
-- keywords, and the posts.
use finpipe.Base.{
  ℕ, ◌+◌, Bool, not, ◌&&◌, ◌||◌, Option, none, some, List, [], ◌∷◌, ◌++◌, String, concat,
  if◌then◌else◌, any,
}
use finpipe.Errors.{Result, ok, raise, type_error, value_error, attribute_error, ◌>>=◌}
use finpipe.Float.{Float}
use finpipe.Json.{Json, null, str, arr, obj, Items, nil, cons, end, get, truthy}
use finpipe.Json.Access.{get_or, chars}
use finpipe.Cache.Backend.{Backend}
use finpipe.Text.{is_within, Unicode, is_empty, strip}
use finpipe.Llm.Compress.{is_missing}
use finpipe.Intel.Sources.{
  Intel, Web, Python, Dumps, Counts, SocialPost, forum, has_client, take_items, printed, or_else,
}

abbrev pub bull_keywords : List String
bull_keywords = "call" ∷ "calls" ∷ "moon" ∷ "bull" ∷ "long" ∷ "buy" ∷ []

abbrev pub bear_keywords : List String
bear_keywords = "put" ∷ "puts" ∷ "bear" ∷ "short" ∷ "sell" ∷ "tank" ∷ "drop" ∷ []

abbrev pub entries_per_subreddit : ℕ
entries_per_subreddit = 5

unfoldable pub reddit_search_url : String → String → String
reddit_search_url symbol subreddit =
    concat "https://oauth.reddit.com/r/" (
      concat subreddit (concat "/search.json?q=" (concat symbol "&restrict_sr=on&sort=new&t=week")))

-- An entry: its title, the URL of the post, which may be any JSON value, and its body.
pub record Entry : Type 0 where
  pub title : String
  pub url : Json
  pub body : String

-- `v.strip()`
abbrev pub strip_of : Unicode → Json → Result String
strip_of u (str s) = ok (strip u s)
strip_of u v = raise (attribute_error "no attribute 'strip'")

-- `children[:n]`
abbrev pub first_children : ℕ → Json → Result Items
first_children n (arr vs) = ok (take_items n vs)
first_children n (str s) = ok (take_items n (chars s))
first_children n v = raise (type_error "object is not sliceable")

-- What a child makes: an entry, or nothing where it has no title or no URL.
unfoldable pub child_entry : Unicode → Python → Json → Result (Option Entry)
child_entry u py child = do
  cdata ← get_or "data" (obj end) child
  raw_title ← get_or "title" null cdata
  title ← strip_of u (or_else (str "") raw_title)
  raw_permalink ← get_or "permalink" null cdata
  let permalink = or_else (str "") raw_permalink
  raw_url ← get_or "url" null cdata
  let post_url =
      if truthy permalink
      then str (concat "https://www.reddit.com" (printed py permalink))
      else or_else (str "") raw_url
  selftext ← get_or "selftext" null cdata
  body ← strip_of u (or_else (str title) selftext)
  if not (is_empty title) && truthy post_url
      then ok (some (record { title = title; url = post_url; body = body }))
      else ok none

-- What an entry and the ones after it make of the list.
abbrev pub appended : Result (Option Entry) → List Entry → List Entry
appended (ok none) rest = rest
appended (ok (some entry)) rest = entry ∷ rest
appended (raise e) rest = []

-- The loop over the children. One that raises ends it, and the entries before it are kept.
unfoldable pub child_entries : Unicode → Python → Items → List Entry
unfolding child_entry
child_entries u py nil = []
child_entries u py (cons child children) =
    appended (child_entry u py child) (child_entries u py children)

-- `data.get("data", {}).get("children", [])[:5]`
unfoldable pub children_of : Json → Result Items
children_of v = do
  inner ← get_or "data" (obj end) v
  children ← get_or "children" (arr nil) inner
  first_children entries_per_subreddit children

abbrev pub entries_of : Unicode → Python → Result Items → List Entry
entries_of u py (ok children) = child_entries u py children
entries_of u py (raise e) = []

-- The body of the loop over the subreddits: what raises in it adds nothing more.
unfoldable pub subreddit_entries : Unicode → Python → Result Json → List Entry
unfolding child_entries children_of
subreddit_entries u py response = entries_of u py (response >>= children_of)

unfoldable pub search_entries : Unicode → Python → Web → String → List Entry
unfolding subreddit_entries
search_entries u py web symbol =
    subreddit_entries u py (web.search symbol "wallstreetbets")
    ++ (subreddit_entries u py (web.search symbol "stocks")
        ++ subreddit_entries u py (web.search symbol "investing"))

-- `data.get("access_token")`, if it is truthy, where nothing raises
abbrev pub token_of : Python → Result Json → Option String
token_of py (ok (obj fields)) = elim (get "access_token" fields) [
  | none ↦ none
  | some token ↦ if truthy token then some (printed py token) else none
]
token_of py _ = none

-- The loop of `_fetch_reddit_sentiment`: a title may count on both sides.
abbrev pub has_keyword : List String → String → Bool
has_keyword keywords title = any (λ word. is_within word title) keywords

unfoldable pub count_titles : Unicode → List Entry → Counts → Counts
unfolding is_within
count_titles u [] c = c
count_titles u (entry ∷ entries) c = count_titles u entries (record {
  bullish = if has_keyword bull_keywords (u.lower entry.title) then c.bullish + 1 else c.bullish;
  bearish = if has_keyword bear_keywords (u.lower entry.title) then c.bearish + 1 else c.bearish;
})

-- `SocialPost(kind=FORUM, text=description, title=title, url=post_url)`
abbrev pub forum_post : Entry → Result SocialPost
forum_post entry = elim entry.url [
  | str url ↦ ok (record {
    kind = forum;
    text = entry.body;
    url = url;
    title = some entry.title;
    author = none;
  })
  | _ ↦ raise (value_error "validation error for SocialPost")
]

unfoldable pub forum_posts : List Entry → Result (List SocialPost)
forum_posts [] = ok []
forum_posts (entry ∷ entries) = do
  post ← forum_post entry
  posts ← forum_posts entries
  ok (post ∷ posts)

module _ {S V F : Type 0} ⦃fl : Float F⦄ (b : Backend S V F) (d : Dumps V F) (u : Unicode)
    (py : Python) (web : Web) (a : Intel) where
  -- A token that was fetched is kept for 23 hours.
  abbrev pub keep_token : F → S → Option String → Option String × S
  keep_token now s none = (none, s)
  keep_token now s (some token) =
      (some token, b.set now "reddit_oauth_token" (d.dump_token token) (fl.lit 82800 0) s)

  abbrev pub token_or : F → Option V × S → Option String × S
  token_or now (some cached, s) = (some (d.load_token cached), s)
  token_or now (none, s) =
      if is_missing a.client_id || is_missing a.client_secret
      then (none, s)
      else keep_token now s (token_of py web.token)

  -- `_fetch_reddit_token`
  unfoldable pub reddit_token : F → S → Option String × S
  reddit_token now s = token_or now (b.get now "reddit_oauth_token" s)

  abbrev pub searched : String → Option String × S → List Entry × S
  searched symbol (token, s) =
      if is_missing token then ([], s) else (search_entries u py web symbol, s)

  -- `_fetch_reddit_entries`
  unfoldable pub reddit_entries : String → F → S → List Entry × S
  unfolding reddit_token search_entries has_client
  reddit_entries symbol now s =
      if has_client a "reddit" then searched symbol (reddit_token now s) else ([], s)
