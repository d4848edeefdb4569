-- ===== src/Intel/News.antt =====
-- News in src/providers/sentiment.py: the fetch of the feed, and `get_news`. A call reads the clock once.
use finpipe.Base.{
  ℕ, Bool, true, false, not, ◌||◌, Option, none, some, List, [], ◌∷◌, String, concat, if◌then◌else◌,
  take, map, ltb, all,
}
use finpipe.Errors.{Result, ok, raise, type_error, ◌>>=◌}
use finpipe.Float.{Float}
use finpipe.Cache.Backend.{Backend}
use finpipe.Fetch.{Action, store, through_cache}
use finpipe.Text.{is_empty, show}
use finpipe.Llm.Compress.{is_missing}
use finpipe.Intel.Sources.{
  Intel, Web, Python, Dumps, FeedItem, Instant, NewsArticle, has_client, source_cache_key,
  fetch_ttl,
}

-- `str(symbol)`
abbrev pub symbol_text : Option String → String
symbol_text none = "None"
symbol_text (some s) = s

-- `x or ""`
abbrev pub or_blank : Option String → String
or_blank none = ""
or_blank (some s) = s

-- `parsedate_to_datetime(s)`, or the current instant where there is no date or it cannot be read
abbrev pub instant_of : Python → Option String → Instant
instant_of py date =
    if is_missing date
    then record { is_aware = false; moment = py.now }
    else elim (py.parsedate (or_blank date)) [
      | none ↦ record { is_aware = false; moment = py.now }
      | some t ↦ t
    ]

-- `[symbol] if symbol else []`
abbrev pub tickers_of : Option String → List String
tickers_of none = []
tickers_of (some s) = if is_empty s then [] else s ∷ []

unfoldable pub article : Python → Option String → FeedItem → NewsArticle
article py symbol item = record {
  title = or_blank item.title;
  link = or_blank item.link;
  published_at = instant_of py item.pub_date;
  related_tickers = tickers_of symbol;
}

unfoldable pub news_url : Option String → String
news_url symbol = concat "https://news.google.com/rss/search?q=" (
    concat (if is_missing symbol then "market news" else or_blank symbol)
      "&hl=en-US&gl=US&ceid=US:en")

-- Newest first, and in the old order where two are as new: `sort(key=published_at, reverse=True)` of instants
-- that can be compared.
unfoldable pub insert_newest : NewsArticle → List NewsArticle → List NewsArticle
insert_newest x [] = x ∷ []
insert_newest x (y ∷ ys) = elim (ltb x.published_at.moment y.published_at.moment) [
  | true ↦ y ∷ insert_newest x ys
  | false ↦ x ∷ y ∷ ys
]

unfoldable pub newest_first : List NewsArticle → List NewsArticle
unfolding insert_newest
newest_first [] = []
newest_first (x ∷ xs) = insert_newest x (newest_first xs)

abbrev pub is_comparable : List NewsArticle → Bool
is_comparable articles =
    all (λ x. x.published_at.is_aware) articles || all (λ x. not x.published_at.is_aware) articles

-- The sort compares, along a chain, all articles, and two instants of which one has a time zone and the
-- other none raise TypeError.
unfoldable pub sort_articles : List NewsArticle → Result (List NewsArticle)
unfolding newest_first
sort_articles articles =
    if is_comparable articles
    then ok (newest_first articles)
    else raise (type_error "can't compare offset-naive and offset-aware datetimes")

-- the cache key of the feed
unfoldable pub feed_key : Option String → ℕ → String
unfolding source_cache_key
feed_key symbol limit =
    source_cache_key "google_news" (concat (symbol_text symbol) (concat "_" (show limit)))

unfoldable pub news_key : Option String → ℕ → String
news_key symbol limit = concat "news_" (concat (symbol_text symbol) (concat "_" (show limit)))

-- The sort and the cut behind the fetch.
unfoldable pub newest : ℕ → Result (List NewsArticle) → Result (List NewsArticle)
unfolding sort_articles
newest limit batch =
    batch >>= (λ articles. sort_articles articles >>= (λ sorted. ok (take limit sorted)))

module _ {S V F : Type 0} ⦃fl : Float F⦄ (b : Backend S V F) (d : Dumps V F) (py : Python)
    (web : Web) (a : Intel) where
  -- `_fetch_google_news`, once there is a client
  unfoldable pub fetch_google_news : Option String → ℕ → F → Action S (List NewsArticle)
  unfolding through_cache article news_url feed_key fetch_ttl
  fetch_google_news symbol limit now =
      through_cache b now (feed_key symbol limit) (fetch_ttl a "google_news") d.load_news
        d.dump_news (λ e. ok [])
        (λ s. (
          web.feed (news_url symbol) >>= (λ items. ok (map (article py symbol) (take limit items))),
          s,
        ))

  abbrev pub news_or : Option String → ℕ → F → Option V × S → Result (List NewsArticle) × S
  news_or symbol limit now (some cached, s) = (d.load_news cached, s)
  news_or symbol limit now (none, s) =
      if has_client a "google_news"
      then (let batch = fetch_google_news symbol limit now s in
          store b now (news_key symbol limit) a.config.news_sec d.dump_news raise
            (newest limit batch.0, batch.1))
      else (ok [], s)

  unfoldable pub get_news : Option String → ℕ → F → Action S (List NewsArticle)
  unfolding has_client fetch_google_news newest news_key
  get_news symbol limit now s = news_or symbol limit now (b.get now (news_key symbol limit) s)
