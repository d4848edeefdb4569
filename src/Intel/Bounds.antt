-- ===== src/Intel/Bounds.antt =====
-- How many voices the sources of src/providers/sentiment.py can count.
use finpipe.Base.{
  ℕ, zero, suc, ◌+◌, ◌≤◌, ◌≡◌, refl, ap, Bool-cases, inl, inr, Option, none, some, List, [], ◌∷◌,
  ◌++◌, String, if◌then◌else◌, length, length-append, arith,
}
use finpipe.Errors.{Result, ok, raise, ◌>>=◌}
use finpipe.Float.{Float}
use finpipe.Json.{Json, null, bool, num, str, arr, obj, Items, nil, cons, end}
use finpipe.Json.Access.{get_or, chars}
use finpipe.Cache.Backend.{Backend}
use finpipe.Fetch.Through.{through_cache_fetched}
use finpipe.Llm.Compress.{is_missing}
use finpipe.Text.{Unicode}
use finpipe.Intel.Sources.{
  Intel, Web, Python, Dumps, Counts, has_client, source_cache_key, take_items, fetch_ttl,
}
use finpipe.Intel.Reddit.{
  Entry, entries_per_subreddit, child_entry, first_children, appended, child_entries, children_of,
  entries_of, subreddit_entries, search_entries, bull_keywords, bear_keywords, has_keyword,
  count_titles, searched, reddit_token, reddit_entries,
}
use finpipe.Intel.Voices.{fetch_reddit_sentiment}

abbrev pub count_items : Items → ℕ
count_items nil = 0
count_items (cons v vs) = suc (count_items vs)

take_items-le : (n : ℕ) (vs : Items) → count_items (take_items n vs) ≤ n
unfolding take_items
take_items-le zero vs = omega arith
take_items-le (suc n) nil = omega arith
take_items-le (suc n) (cons v vs) = omega (arith, take_items-le n vs)

child_entries-le :
    (u : Unicode) (py : Python) (vs : Items) → length (child_entries u py vs) ≤ count_items vs
unfolding child_entries
child_entries-le u py nil = omega arith
child_entries-le u py (cons v vs) =
    one (child_entry u py v) (child_entries u py vs) (child_entries-le u py vs)
  where
    one :
        (r : Result (Option Entry)) (rest : List Entry)
        → length rest ≤ count_items vs
        → length (appended r rest) ≤ suc (count_items vs)
    one (ok none) rest h = omega arith
    one (ok (some entry)) rest h = omega arith
    one (raise e) rest h = omega arith

first_children-le :
    (n : ℕ) (v : Json) (vs : Items) → first_children n v ≡ ok vs → count_items vs ≤ n
first_children-le n (arr ws) vs h =
    let e : take_items n ws ≡ vs = ground arith in rw (← e) (take_items-le n ws)
first_children-le n (str s) vs h =
    let e : take_items n (chars s) ≡ vs = ground arith in rw (← e) (take_items-le n (chars s))
first_children-le n null vs h = absurd (ground arith)
first_children-le n (bool x) vs h = absurd (ground arith)
first_children-le n (num x) vs h = absurd (ground arith)
first_children-le n (obj x) vs h = absurd (ground arith)

-- a result of a chain, one link before its end
before {ℓ} :
    {A B : Type ℓ} (r : Result A) (f : A → Result B) (z : B)
    → (r >>= f) ≡ ok z
    → (x : A) × (f x ≡ ok z)
before (ok x) f z h = (x, h)
before (raise e) f z h = absurd (ground arith)

subreddit_entries-le :
    (u : Unicode) (py : Python) (response : Result Json)
    → length (subreddit_entries u py response) ≤ entries_per_subreddit
unfolding subreddit_entries children_of
subreddit_entries-le u py response = bounded (response >>= children_of) refl
  where
    bounded :
        (r : Result Items)
        → (response >>= children_of) ≡ r
        → length (entries_of u py r) ≤ entries_per_subreddit
    bounded (raise e) h = omega arith
    bounded (ok vs) h =
        let (v, h1) = before response children_of vs h in
        let (w, h2) =
          before (get_or "data" (obj end) v)
            (λ (x : Json). get_or "children" (arr nil) x >>= first_children entries_per_subreddit)
            vs h1 in
        let (c, h3) =
          before (get_or "children" (arr nil) w) (first_children entries_per_subreddit) vs h2 in
        omega (arith, child_entries-le u py vs, first_children-le entries_per_subreddit c vs h3)

search_entries-le :
    (u : Unicode) (py : Python) (web : Web) (symbol : String)
    → length (search_entries u py web symbol) ≤ 15
unfolding search_entries
search_entries-le u py web symbol =
    let x = web.search symbol "wallstreetbets" in
    let y = web.search symbol "stocks" in
    let z = web.search symbol "investing" in
    omega (
      arith,
      length-append (subreddit_entries u py x)
          (subreddit_entries u py y ++ subreddit_entries u py z),
      length-append (subreddit_entries u py y) (subreddit_entries u py z),
      subreddit_entries-le u py x,
      subreddit_entries-le u py y,
      subreddit_entries-le u py z,
    )

count_titles-le :
    (u : Unicode) (entries : List Entry) (c : Counts)
    → ((count_titles u entries c).bullish ≤ c.bullish + length entries)
      × ((count_titles u entries c).bearish ≤ c.bearish + length entries)
unfolding count_titles
count_titles-le u [] c = (omega arith, omega arith)
count_titles-le u (entry ∷ entries) c =
    let rest = count_titles-le u entries (record {
      bullish =
          if has_keyword bull_keywords (u.lower entry.title) then c.bullish + 1 else c.bullish;
      bearish =
          if has_keyword bear_keywords (u.lower entry.title) then c.bearish + 1 else c.bearish;
    }) in
    ground arith

module _ {S V F : Type 0} ⦃fl : Float F⦄ (b : Backend S V F) (d : Dumps V F) (u : Unicode)
    (py : Python) (web : Web) (a : Intel) where
  searched-le :
      (symbol : String) (o : Option String × S) → length (searched b d u py web a symbol o).0 ≤ 15
  searched-le symbol (token, s) = elim (Bool-cases (is_missing token)) [
    | inl e ↦ rw e (omega arith)
    | inr e ↦ rw e (search_entries-le u py web symbol)
  ]

  -- Whatever the cache holds and the requests come to, Reddit gives no more than fifteen entries.
  reddit_entries-le :
      (symbol : String) (now : F) (s : S)
      → length (reddit_entries b d u py web a symbol now s).0 ≤ 15
  unfolding reddit_entries
  reddit_entries-le symbol now s = elim (Bool-cases (has_client a "reddit")) [
    | inl e ↦ rw e (searched-le symbol (reddit_token b d u py web a now s))
    | inr e ↦ rw e (omega arith)
  ]

  -- On a miss, Reddit's sentiment is fetched without raising, whatever the requests come to, and counts at
  -- most fifteen bullish and fifteen bearish voices.
  pub fetch_reddit_sentiment-le :
      (symbol : String) (now : F) (s : S)
      → (b.get now (source_cache_key "reddit" symbol) s).0 ≡ none
      → (c : Counts) × ((fetch_reddit_sentiment b d u py web a symbol now s).0 ≡ ok c)
        × (c.bullish ≤ 15)
        × (c.bearish ≤ 15)
  unfolding fetch_reddit_sentiment
  fetch_reddit_sentiment-le symbol now s miss =
      let found =
        reddit_entries b d u py web a symbol now
          (b.get now (source_cache_key "reddit" symbol) s).1 in
      let few : length found.0 ≤ 15 =
        reddit_entries-le symbol now (b.get now (source_cache_key "reddit" symbol) s).1 in
      let zeros : Counts = record { bullish = 0; bearish = 0 } in
      let counted = count_titles-le u found.0 zeros in
      (
        count_titles u found.0 zeros,
        ap (λ o. o.0)
            (through_cache_fetched b (source_cache_key "reddit" symbol) (fetch_ttl a "reddit")
              d.load_counts d.dump_counts raise now (count_titles u found.0 zeros)
              (λ t.
                let found_at = reddit_entries b d u py web a symbol now t in
                (ok (count_titles u found_at.0 (record { bullish = 0; bearish = 0 })), found_at.1))
              s found.1 miss refl),
        omega (arith, counted.0, few),
        omega (arith, counted.1, few),
      )
