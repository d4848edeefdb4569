-- ===== src/Intel/Newest.antt =====
-- What `get_news` of src/providers/sentiment.py answers: the order, the bound, and a failing feed.
use finpipe.Base.{
  length-map, ℕ, ◌≤◌, ◌≡◌, refl, ap, ◌∙◌, true, false, not, Option, none, some, List, [], String,
  take, map, length, length-take-le, filter, any, arith,
}
use finpipe.Errors.{Exn, ok, raise, type_error}
use finpipe.Float.{Float, less}
use finpipe.Cache.Backend.{Backend}
use finpipe.Fetch.{store}
use finpipe.Fetch.Through.{through_cache_failed, through_cache_fetched}
use finpipe.Intel.Sources.{Intel, Web, Python, Dumps, FeedItem, NewsArticle, has_client, fetch_ttl}
use finpipe.Intel.News.{
  instant_of, article, news_url, newest_first, is_comparable, sort_articles, fetch_google_news,
  feed_key, news_key, newest, news_or, get_news,
}
use finpipe.Intel.Order.{
  IsNewest, is_at, newest_first-IsNewest, filter-newest_first, length-newest_first, take-all,
  mixed-not_comparable,
}

module _ {S V F : Type 0} ⦃fl : Float F⦄ (b : Backend S V F) (d : Dumps V F) (py : Python)
    (a : Intel) where
  -- Neither the answer nor the feed is in the cache.
  abbrev pub IsMissed : Option String → ℕ → F → S → Type 0
  IsMissed symbol limit now s =
      ((b.get now (news_key symbol limit) s).0 ≡ none)
      × ((b.get now (feed_key symbol limit) (b.get now (news_key symbol limit) s).1).0 ≡ none)

  -- What a call that misses comes to.
  news_or-missed :
      (web : Web) (symbol : Option String) (limit : ℕ) (now : F) (o : Option V × S)
      → has_client a "google_news" ≡ true
      → o.0 ≡ none
      → news_or b d py web a symbol limit now o
        ≡ store b now (news_key symbol limit) a.config.news_sec d.dump_news raise (
          newest limit (fetch_google_news b d py web a symbol limit now o.1).0,
          (fetch_google_news b d py web a symbol limit now o.1).1,
        )
  news_or-missed web symbol limit now (none, s) on h = rw on refl
  news_or-missed web symbol limit now (some v, s) on h = absurd (ground arith)

  fetched :
      (web : Web) (symbol : Option String) (limit : ℕ) (now : F) (s : S) (items : List FeedItem)
      → (b.get now (feed_key symbol limit) s).0 ≡ none
      → web.feed (news_url symbol) ≡ ok items
      → (fetch_google_news b d py web a symbol limit now s).0
        ≡ ok (map (article py symbol) (take limit items))
  unfolding fetch_google_news
  fetched web symbol limit now s items miss answer =
      ap (λ o. o.0)
        (through_cache_fetched b (feed_key symbol limit) (fetch_ttl a "google_news") d.load_news
          d.dump_news (λ e. ok []) now (map (article py symbol) (take limit items)) _ s
          (b.get now (feed_key symbol limit) s).1 miss (rw answer refl))

  -- On a miss `get_news` answers the first `limit` items of the feed, newest first and those of one instant
  -- in the feed's order, if their instants all have a time zone or all have none.
  pub get_news-IsNewest :
      (web : Web) (symbol : Option String) (limit : ℕ) (now : F) (s : S) (items : List FeedItem)
      → has_client a "google_news" ≡ true
      → IsMissed symbol limit now s
      → web.feed (news_url symbol) ≡ ok items
      → is_comparable (map (article py symbol) (take limit items)) ≡ true
      → (answer : List NewsArticle) × ((get_news b d py web a symbol limit now s).0 ≡ ok answer)
        × IsNewest answer
        × ((m : ℕ)
            → filter (is_at m) answer
              ≡ filter (is_at m) (map (article py symbol) (take limit items)))
  unfolding get_news newest sort_articles
  get_news-IsNewest web symbol limit now s items on (miss, miss') answer comparable =
      let all_items = map (article py symbol) (take limit items) in
      let fits : length (newest_first all_items) ≤ limit =
        rw (length-newest_first all_items, length-map (article py symbol) (take limit items))
          (length-take-le limit items) in
      let got =
        fetched web symbol limit now (b.get now (news_key symbol limit) s).1 items miss' answer in
      (
        newest_first all_items,
        ap (λ o. o.0)
              (news_or-missed web symbol limit now (b.get now (news_key symbol limit) s) on miss)
            ∙ rw (got, comparable, take-all limit (newest_first all_items) fits) refl,
        newest_first-IsNewest all_items,
        (λ m. filter-newest_first m all_items),
      )

  -- Where, of the first `limit` items of the feed, one has an instant with a time zone and one without, as
  -- an item without a readable date has, `get_news` raises TypeError on a miss.
  pub get_news-mixed :
      (web : Web) (symbol : Option String) (limit : ℕ) (now : F) (s : S) (items : List FeedItem)
      → has_client a "google_news" ≡ true
      → IsMissed symbol limit now s
      → web.feed (news_url symbol) ≡ ok items
      → any (λ item. (instant_of py item.pub_date).is_aware) (take limit items) ≡ true
      → any (λ item. not (instant_of py item.pub_date).is_aware) (take limit items) ≡ true
      → (get_news b d py web a symbol limit now s).0
        ≡ raise (type_error "can't compare offset-naive and offset-aware datetimes")
  unfolding get_news newest sort_articles
  get_news-mixed web symbol limit now s items on (miss, miss') answer some_aware some_naive =
      let got =
        fetched web symbol limit now (b.get now (news_key symbol limit) s).1 items miss' answer in
      ap (λ o. o.0)
        (news_or-missed web symbol limit now (b.get now (news_key symbol limit) s) on miss)
      ∙ rw (got, mixed-not_comparable py symbol (take limit items) some_aware some_naive) refl

  failed :
      (web : Web) (symbol : Option String) (limit : ℕ) (now : F) (s : S) (e : Exn)
      → (b.get now (feed_key symbol limit) s).0 ≡ none
      → web.feed (news_url symbol) ≡ raise e
      → fetch_google_news b d py web a symbol limit now s
        ≡ (ok [], (b.get now (feed_key symbol limit) s).1)
  unfolding fetch_google_news
  failed web symbol limit now s e miss down =
      through_cache_failed b (feed_key symbol limit) (fetch_ttl a "google_news") d.load_news
        d.dump_news (λ x. ok []) now e _ s (b.get now (feed_key symbol limit) s).1 miss
        (rw down refl)

  hit :
      (web : Web) (symbol : Option String) (limit : ℕ) (now : F) (o : Option V × S) (v : V)
      → o.0 ≡ some v
      → (news_or b d py web a symbol limit now o).0 ≡ d.load_news v
  hit web symbol limit now (none, s) v h = absurd (ground arith)
  hit web symbol limit now (some w, s) v h = ground arith

  -- A request of the feed that fails once makes `get_news` answer no news until that answer expires,
  -- whatever the feed holds by then.
  pub get_news-outage :
      (web web_later : Web) (symbol : Option String) (limit : ℕ) (now later : F) (s : S) (e : Exn)
      → has_client a "google_news" ≡ true
      → IsMissed symbol limit now s
      → web.feed (news_url symbol) ≡ raise e
      → less (fl.add now (fl.lit a.config.news_sec 0)) later ≡ false
      → ((get_news b d py web a symbol limit now s).0 ≡ ok [])
        × ((get_news b d py web_later a symbol limit later
              (get_news b d py web a symbol limit now s).1).0
            ≡ ok [])
  unfolding get_news newest sort_articles newest_first
  get_news-outage web web_later symbol limit now later s e on (miss, miss') down fresh =
      let down' =
        failed web symbol limit now (b.get now (news_key symbol limit) s).1 e miss' down in
      let first : get_news b d py web a symbol limit now s ≡ (
        ok [],
        b.set now (news_key symbol limit) (d.dump_news []) (fl.lit a.config.news_sec 0)
            (b.get now (feed_key symbol limit) (b.get now (news_key symbol limit) s).1).1,
      ) =
        news_or-missed web symbol limit now (b.get now (news_key symbol limit) s) on miss
        ∙ rw (down', take-all {A = NewsArticle} limit [] (omega arith)) refl in
      (
        ap (λ o. o.0) first,
        rw first (
            hit web_later symbol limit later _ (d.dump_news []) (
              b.get-set now later (fl.lit a.config.news_sec 0) (news_key symbol limit)
                (d.dump_news []) _
              ∙ rw fresh refl)
            ∙ d.load-dump_news []),
      )
