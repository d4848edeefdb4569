-- ===== src/Intel/Sources.antt =====
-- The sources of the intel adapter and what their services answer (src/providers/sentiment.py).
use finpipe.Base.{
  ◌≡◌, ℕ, zero, suc, Bool, false, Option, none, some, List, String, str_eq, concat, if◌then◌else◌,
}
use finpipe.Errors.{Result, ok}
use finpipe.Json.{Json, truthy, str, Items, nil, cons}
use finpipe.Config.Ttl.{SentimentConfig, sentiment_source, sec_or}

-- The adapter: its configuration, and the credentials of Reddit.
pub record Intel : Type 0 where
  pub config : SentimentConfig
  pub client_id : Option String
  pub client_secret : Option String

-- A `datetime`: whether it has a time zone, and its place in time.
pub record Instant : Type 0 where
  pub is_aware : Bool
  pub moment : ℕ

-- An `<item>` of the news feed.
pub record FeedItem : Type 0 where
  pub title : Option String
  pub link : Option String
  pub pub_date : Option String

-- What the requests come to, by the URL or the symbol that they are made for; a status of 400 or more
-- raises, and so does a feed that is no XML.
pub record Web : Type 0 where
  pub feed : String → Result (List FeedItem)
  pub stream : String → Result Json
  pub token : Result Json
  pub search : String → String → Result Json

-- Python's own: `parsedate_to_datetime`, where it does not raise, `datetime.now()`, which has no time zone,
-- and `str(v)` of a JSON value that is no text.
pub record Python : Type 0 where
  pub parsedate : String → Option Instant
  pub now : ℕ
  pub print : Json → String

-- Whether `_client_for` gives a client.
unfoldable pub has_client : Intel → String → Bool
has_client a name = elim (sentiment_source a.config name) [
  | none ↦ false
  | some source ↦ source.enabled
]

unfoldable pub source_cache_key : String → String → String
source_cache_key name suffix = concat "intel_src_" (concat name (concat "_" suffix))

-- `resolve_source_fetch_ttl` for the adapter's own source names
unfoldable pub fetch_ttl : Intel → String → ℕ
fetch_ttl a name = elim (sentiment_source a.config name) [
  | none ↦ 0
  | some source ↦
      sec_or source.fetch_sec
        (if str_eq name "google_news" then a.config.news_sec else a.config.sentiment_score_sec)
]

-- the first items of an array
unfoldable pub take_items : ℕ → Items → Items
take_items zero vs = nil
take_items (suc n) nil = nil
take_items (suc n) (cons v vs) = cons v (take_items n vs)

-- Bullish and bearish voices.
pub record Counts : Type 0 where
  pub bullish : ℕ
  pub bearish : ℕ

pub data SocialPostKind : Type 0 where
  forum microblog : SocialPostKind

pub record SocialPost : Type 0 where
  pub kind : SocialPostKind
  pub text : String
  pub url : String
  pub title : Option String
  pub author : Option String

pub record NewsArticle : Type 0 where
  pub title : String
  pub link : String
  pub published_at : Instant
  pub related_tickers : List String

-- the score of a symbol, whose magnitude is its number of voices
pub record SentimentScore (F : Type 0) : Type 0 where
  pub symbol : String
  pub source : String
  pub score : F
  pub magnitude : ℕ

-- What the methods put into the cache, and how they read it back: dumps of the models, tuples as lists, and
-- a token. A value that was dumped is read back as it was.
pub record Dumps (V F : Type 0) : Type 0 where
  pub dump_token : String → V
  pub load_token : V → String
  pub dump_counts : Counts → V
  pub load_counts : V → Result Counts
  pub dump_news : List NewsArticle → V
  pub load_news : V → Result (List NewsArticle)
  pub dump_posts : List SocialPost → V
  pub load_posts : V → Result (List SocialPost)
  pub dump_score : SentimentScore F → V
  pub load_score : V → Result (SentimentScore F)
  pub load-dump_news : (articles : List NewsArticle) → load_news (dump_news articles) ≡ ok articles
  pub load-dump_posts : (posts : List SocialPost) → load_posts (dump_posts posts) ≡ ok posts
  pub load-dump_score : (score : SentimentScore F) → load_score (dump_score score) ≡ ok score

-- `str(v)` of a JSON value
abbrev pub printed : Python → Json → String
printed py (str s) = s
printed py v = py.print v

-- `v or default`
abbrev pub or_else : Json → Json → Json
or_else default v = if truthy v then v else default
