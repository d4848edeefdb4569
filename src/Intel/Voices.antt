-- ===== src/Intel/Voices.antt =====
-- Social posts and the sentiment score in src/providers/sentiment.py. A call reads the clock once. The
-- fetches that `asyncio.gather` waits for keep to cache keys of their own, and are run one after the other.
use finpipe.Base.{
  ℕ, ◌+◌, Bool, true, false, ◌&&◌, Option, none, some, List, [], ◌∷◌, ◌++◌, String, str_eq, concat,
  if◌then◌else◌, take, ltb, join,
}
use finpipe.Errors.{Result, ok, raise, ◌>>=◌}
use finpipe.Float.{Float}
use finpipe.Json.{Fields}
use finpipe.Cache.Backend.{Backend}
use finpipe.Fetch.{Action, store, through_cache}
use finpipe.Text.{Unicode, show}
use finpipe.Intel.Sources.{
  Intel, Web, Python, Dumps, Counts, SentimentScore, SocialPost, SocialPostKind, forum, microblog,
  has_client, source_cache_key, fetch_ttl,
}
use finpipe.Intel.Stocktwits.{stream_of, stocktwits_counts, stocktwits_posts}
use finpipe.Intel.Reddit.{count_titles, forum_posts, reddit_entries}

-- The results of `asyncio.gather`, extended to one list.
unfoldable pub gather : {S A : Type 0} → List (Action S (List A)) → Action S (List A)
gather [] s = (ok [], s)
gather (fetch ∷ fetches) s =
    let first = fetch s in
    let rest = gather fetches first.1 in
    (first.0 >>= (λ xs. rest.0 >>= (λ ys. ok (xs ++ ys))), rest.1)

-- The results of `asyncio.gather(..., return_exceptions=True)`, added up.
unfoldable pub tally : {S : Type 0} → List (Action S Counts) → S → Counts × S
tally [] s = (record { bullish = 0; bearish = 0 }, s)
tally (fetch ∷ fetches) s =
    let first = fetch s in
    let rest = tally fetches first.1 in
    (
      elim first.0 [
        | ok c ↦ record {
          bullish = c.bullish + rest.0.bullish;
          bearish = c.bearish + rest.0.bearish;
        }
        | raise e ↦ rest.0
      ],
      rest.1,
    )

-- `kind in (None, asked)`
abbrev pub is_kind : SocialPostKind → SocialPostKind → Bool
is_kind forum forum = true
is_kind microblog microblog = true
is_kind forum microblog = false
is_kind microblog forum = false

abbrev pub wants : Option SocialPostKind → SocialPostKind → Bool
wants none kind = true
wants (some asked) kind = is_kind asked kind

abbrev pub kind_text : Option SocialPostKind → String
kind_text none = "all"
kind_text (some forum) = "forum"
kind_text (some microblog) = "microblog"

-- `x` behind a condition: an optional member of a list
abbrev pub when {ℓ} : {A : Type ℓ} → Bool → A → List A → List A
when test x xs = if test then x ∷ xs else xs

unfoldable pub posts_key : String → String → ℕ → String
unfolding source_cache_key
posts_key name symbol limit = source_cache_key name (
    concat (if str_eq name "stocktwits" then "msgs_" else "posts_")
      (concat symbol (concat "_" (show limit))))

unfoldable pub social_key : String → ℕ → Option SocialPostKind → String
social_key symbol limit kind =
    concat "social_"
      (concat symbol (concat "_" (concat (show limit) (concat "_" (kind_text kind)))))

module _ {S V F : Type 0} ⦃fl : Float F⦄ (b : Backend S V F) (d : Dumps V F) (u : Unicode)
    (py : Python) (web : Web) (a : Intel) where
  -- A fetch behind the cache that, with no stream, answers `absent` and sets nothing.
  abbrev pub streamed :
      {A : Type 0}
      → (key : String) → (V → Result A)
      → (A → V)
      → A
      → (Fields → Result A)
      → F
      → Option V × S
      → Option Fields
      → Result A × S
  streamed key load dump absent read now (some cached, s) stream = (load cached, s)
  streamed key load dump absent read now (none, s) none = (ok absent, s)
  streamed key load dump absent read now (none, s) (some fields) =
      store b now key (fetch_ttl a "stocktwits") dump raise (read fields, s)

  abbrev pub stream : String → Option Fields
  stream symbol = if has_client a "stocktwits" then stream_of (web.stream symbol) else none

  unfoldable pub fetch_stocktwits_sentiment : String → F → Action S Counts
  unfolding source_cache_key fetch_ttl has_client stream_of stocktwits_counts
  fetch_stocktwits_sentiment symbol now s =
      streamed (source_cache_key "stocktwits" symbol) d.load_counts d.dump_counts
        (record { bullish = 0; bearish = 0 }) (stocktwits_counts u) now
        (b.get now (source_cache_key "stocktwits" symbol) s) (stream symbol)

  unfoldable pub fetch_stocktwits_posts : String → ℕ → F → Action S (List SocialPost)
  unfolding posts_key fetch_ttl has_client stream_of stocktwits_posts
  fetch_stocktwits_posts symbol limit now s =
      streamed (posts_key "stocktwits" symbol limit) d.load_posts d.dump_posts []
        (stocktwits_posts py limit) now (b.get now (posts_key "stocktwits" symbol limit) s)
        (stream symbol)

  unfoldable pub fetch_reddit_sentiment : String → F → Action S Counts
  unfolding through_cache source_cache_key fetch_ttl count_titles reddit_entries
  fetch_reddit_sentiment symbol now =
      through_cache b now (source_cache_key "reddit" symbol) (fetch_ttl a "reddit") d.load_counts
        d.dump_counts raise
        (λ s.
          let found = reddit_entries b d u py web a symbol now s in
          (ok (count_titles u found.0 (record { bullish = 0; bearish = 0 })), found.1))

  unfoldable pub fetch_reddit_posts : String → ℕ → F → Action S (List SocialPost)
  unfolding through_cache posts_key fetch_ttl forum_posts reddit_entries
  fetch_reddit_posts symbol limit now =
      through_cache b now (posts_key "reddit" symbol limit) (fetch_ttl a "reddit") d.load_posts
        d.dump_posts raise
        (λ s.
          let found = reddit_entries b d u py web a symbol now s in
          (forum_posts (take limit found.0), found.1))

  -- `fetch_tasks` of `get_social_posts`
  unfoldable pub post_tasks :
      String → ℕ → Option SocialPostKind → F → List (Action S (List SocialPost))
  unfolding fetch_stocktwits_posts fetch_reddit_posts has_client
  post_tasks symbol limit kind now =
      when (wants kind microblog && has_client a "stocktwits")
        (fetch_stocktwits_posts symbol limit now)
        (when (wants kind forum && has_client a "reddit") (fetch_reddit_posts symbol limit now) [])

  abbrev pub posts_or :
      String
      → ℕ
      → Option SocialPostKind
      → F
      → Option V × S
      → List (Action S (List SocialPost))
      → Result (List SocialPost) × S
  posts_or symbol limit kind now (some cached, s) tasks = (d.load_posts cached, s)
  posts_or symbol limit kind now (none, s) [] = (ok [], s)
  posts_or symbol limit kind now (none, s) (task ∷ tasks) =
      let batches = gather (task ∷ tasks) s in
      store b now (social_key symbol limit kind) a.config.news_sec d.dump_posts raise
        (batches.0 >>= (λ posts. ok (take limit posts)), batches.1)

  unfoldable pub get_social_posts :
      String → ℕ → Option SocialPostKind → F → Action S (List SocialPost)
  unfolding gather social_key post_tasks
  get_social_posts symbol limit kind now s =
      posts_or symbol limit kind now (b.get now (social_key symbol limit kind) s)
        (post_tasks symbol limit kind now)

  -- The sum and difference of whole numbers are exact, and the quotient of two of them is rounded once.
  unfoldable pub score_of : String → String → Counts → SentimentScore F
  score_of symbol source c = record {
    symbol = symbol;
    source = source;
    score =
        if ltb 0 (c.bullish + c.bearish)
        then fl.div (fl.sub (fl.lit c.bullish 0) (fl.lit c.bearish 0))
            (fl.lit (c.bullish + c.bearish) 0)
        else fl.lit 0 0;
    magnitude = c.bullish + c.bearish;
  }

  unfoldable pub sentiment_tasks : String → F → List (Action S Counts)
  unfolding has_client fetch_stocktwits_sentiment fetch_reddit_sentiment
  sentiment_tasks symbol now =
      when (has_client a "stocktwits") (fetch_stocktwits_sentiment symbol now)
        (when (has_client a "reddit") (fetch_reddit_sentiment symbol now) [])

  unfoldable pub sources_used : List String
  unfolding has_client
  sources_used =
      when (has_client a "stocktwits") "microblog" (when (has_client a "reddit") "forum" [])

  abbrev pub source_text : List String → String
  source_text [] = "none"
  source_text (name ∷ names) = join "+" (name ∷ names)

  abbrev pub score_or : String → F → Option V × S → Result (SentimentScore F) × S
  score_or symbol now (some cached, s) = (d.load_score cached, s)
  score_or symbol now (none, s) =
      let total = tally (sentiment_tasks symbol now) s in
      store b now (concat "sentiment_" symbol) a.config.sentiment_score_sec d.dump_score raise
        (ok (score_of symbol (source_text sources_used) total.0), total.1)

  unfoldable pub get_sentiment_score : String → F → Action S (SentimentScore F)
  unfolding tally score_of sentiment_tasks sources_used
  get_sentiment_score symbol now s = score_or symbol now (b.get now (concat "sentiment_" symbol) s)
