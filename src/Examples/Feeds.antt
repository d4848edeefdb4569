-- ===== src/Examples/Feeds.antt =====
-- Runs of the screener and of the intel adapter (src/providers/screener.py, src/providers/sentiment.py).
use finpipe.Base.{
  ℕ, ◌≡◌, ◌≤◌, refl, true, none, some, List, [], ◌∷◌, String, Dict, map, take, filter, arith,
  str_eq, if◌then◌else◌,
}
use finpipe.Errors.{Result, ok, raise, type_error, provider_down, network_error}
use finpipe.Float.{Float}
use finpipe.Json.{Json, nil, cons, str, arr, obj, end, field}
use finpipe.Cache.Backend.{Backend}
use finpipe.Cache.Memory.{memory_backend, memory_get}
use finpipe.Config.Ttl.{SourceConfig, resolve_screener_tradingview_source}
use finpipe.Screener.Adapter.{
  Web as ScreenerWeb, Screener, Params, run, screen, run_tradingview, has_client, source_config,
}
use finpipe.Screener.Answers.{is_expected, run-raised}
use finpipe.Intel.Sources.{
  Web, Intel, FeedItem, Python, Counts, has_client as has_intel_client, NewsArticle, SocialPost,
  SentimentScore, Dumps,
}
use finpipe.Intel.News.{article, get_news}
use finpipe.Intel.Order.{IsNewest, is_at}
use finpipe.Intel.Newest.{get_news-IsNewest, get_news-mixed, get_news-outage}
use finpipe.Intel.Voices.{fetch_reddit_sentiment}
use finpipe.Intel.Bounds.{fetch_reddit_sentiment-le}
use finpipe.Examples.Milli.{milli}
use finpipe.Examples.Setup.{unbounded, ascii}

instance thousandths : Float ℕ
thousandths = milli

abbrev source : SourceConfig
source = record {
  enabled = true;
  fetch_sec = none;
  default_limit = none;
  rate_limits = end;
  http = end;
}

abbrev screener : Screener
screener = record {
  config = record {
    enabled = true;
    run_sec = 300;
    yahoo_trending = source;
    yahoo_predefined = source;
    finviz = source;
    tradingview = source;
  };
  legacy = record { screener_sec = 300; rate_limits = end; http = end };
}

abbrev offline : ScreenerWeb
offline = record {
  json = λ r. raise (network_error "offline");
  page = λ r. raise (network_error "offline");
}

abbrev no_params : Params
no_params = record { scr_id = none; limit = none; filter_key = none; criteria = end }

abbrev answers : Backend (Dict (Json × ℕ)) Json ℕ
answers = memory_backend unbounded

run-raised_example :
    is_expected "tradingview" no_params
      (provider_down "Failed to fetch data from TradingView screener")
    ≡ true
unfolding thousandths memory_get run run_tradingview screen has_client source_config
    resolve_screener_tradingview_source
run-raised_example =
    run-raised answers ascii offline screener (λ fields. "[]") "tradingview" no_params 0 []
      (provider_down "Failed to fetch data from TradingView screener")
      (λ k v h. absurd (ground arith)) refl

-- what the intel adapter caches
data Cached : Type 0 where
  token : String → Cached
  counts : Counts → Cached
  news : List NewsArticle → Cached
  posts : List SocialPost → Cached
  score : SentimentScore ℕ → Cached

abbrev load_token : Cached → String
load_token (token t) = t
load_token v = ""

abbrev load_counts : Cached → Result Counts
load_counts (counts c) = ok c
load_counts v = raise (type_error "no counts")

abbrev load_news : Cached → Result (List NewsArticle)
load_news (news articles) = ok articles
load_news v = raise (type_error "no news")

abbrev load_posts : Cached → Result (List SocialPost)
load_posts (posts ps) = ok ps
load_posts v = raise (type_error "no posts")

abbrev load_score : Cached → Result (SentimentScore ℕ)
load_score (score s) = ok s
load_score v = raise (type_error "no score")

abbrev dumps : Dumps Cached ℕ
dumps = record {
  dump_token = token;
  load_token = load_token;
  dump_counts = counts;
  load_counts = load_counts;
  dump_news = news;
  load_news = load_news;
  dump_posts = posts;
  load_posts = load_posts;
  dump_score = score;
  load_score = load_score;
  load-dump_news = λ articles. refl;
  load-dump_posts = λ ps. refl;
  load-dump_score = λ s. refl;
}

abbrev cached : Backend (Dict (Cached × ℕ)) Cached ℕ
cached = memory_backend unbounded

abbrev intel : Intel
intel = record {
  config = record {
    news_sec = 300;
    sentiment_score_sec = 300;
    google_news = source;
    stocktwits = source;
    reddit = source;
  };
  client_id = some "id";
  client_secret = some "secret";
}

-- a date of one letter is read as an instant with a time zone
abbrev python : Python
python = record {
  parsedate = λ s.
      if str_eq s "a"
      then some (record { is_aware = true; moment = 1 })
      else (if str_eq s "b" then some (record { is_aware = true; moment = 2 }) else none);
  now = 9;
  print = λ v. "";
}

abbrev dated : String → FeedItem
dated date = record { title = some date; link = none; pub_date = some date }

abbrev serving : List FeedItem → Web
serving items = record {
  feed = λ url. ok items;
  stream = λ symbol. raise (network_error "offline");
  token = raise (network_error "offline");
  search = λ symbol subreddit. raise (network_error "offline");
}

abbrev silent : Web
silent = record (serving []) { feed = λ url. raise (network_error "offline") }

abbrev two_dates : List FeedItem
two_dates = dated "a" ∷ dated "b" ∷ []

abbrev one_date : List FeedItem
one_date = dated "a" ∷ dated "soon" ∷ []

get_news-IsNewest_example :
    (answer : List NewsArticle) × ((get_news cached dumps python
        (serving two_dates)
        intel
        (some "AAPL")
        20
        0
        []).0
      ≡ ok answer)
    × IsNewest answer
    × ((m : ℕ)
        → filter (is_at m) answer
          ≡ filter (is_at m) (map (article python (some "AAPL")) (take 20 two_dates)))
unfolding memory_get article has_intel_client
get_news-IsNewest_example =
    get_news-IsNewest cached dumps python intel (serving two_dates) (some "AAPL") 20 0 [] two_dates
      refl (refl, refl) refl refl

get_news-mixed_example :
    (get_news cached dumps python (serving one_date) intel none 20 0 []).0
    ≡ raise (type_error "can't compare offset-naive and offset-aware datetimes")
unfolding memory_get has_intel_client
get_news-mixed_example =
    get_news-mixed cached dumps python intel (serving one_date) none 20 0 [] one_date refl
      (refl, refl) refl refl refl

get_news-outage_example :
    ((get_news cached dumps python silent intel none 20 0 []).0 ≡ ok [])
    × ((get_news cached dumps python
          (serving two_dates)
          intel
          none
          20
          5000
          (get_news cached dumps python silent intel none 20 0 []).1).0
        ≡ ok [])
unfolding memory_get has_intel_client thousandths
get_news-outage_example =
    get_news-outage cached dumps python intel silent (serving two_dates) none 20 0 5000 []
      (network_error "offline") refl (refl, refl) refl refl

abbrev post : Json
post = obj (
    field "data" (obj (field "title" (str " buy it ") (field "permalink" (str "/r/stocks/1") end)))
      end)

-- Reddit with a token, and one post in each of the three subreddits
abbrev chatting : Web
chatting = record (serving []) {
  token = ok (obj (field "access_token" (str "t") end));
  search = λ symbol subreddit.
      ok (obj (field "data" (obj (field "children" (arr (cons post nil)) end)) end));
}

fetch_reddit_sentiment-le_example :
    (c : Counts) × ((fetch_reddit_sentiment cached dumps ascii python chatting intel "AAPL" 0 []).0
      ≡ ok c)
    × (c.bullish ≤ 15)
    × (c.bearish ≤ 15)
unfolding memory_get
fetch_reddit_sentiment-le_example =
    fetch_reddit_sentiment-le cached dumps ascii python chatting intel "AAPL" 0 [] refl
