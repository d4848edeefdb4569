-- ===== src/Lib.antt =====
-- finpipe: a library of market data, news, screeners and language models behind one client, with rate
-- limits, caches, fallbacks and health checks. This development models its own logic.
--
-- The parts and their files:
--   src/core/exceptions.py                       Errors.antt: exceptions and results
--   src/_internal/aimd.py, limits.py             Limiter/Limits.antt: constants and hard caps
--   src/network/limiter.py                       Limiter/Adaptive.antt: AdaptiveRateLimiter;
--                                                Limiter/Buckets.antt: TokenBucketRateLimiter, RpmTpmRateLimiter
--   src/network/resilience.py                    Resilience.antt: creation, request and close of
--                                                ResilientHttpClient; Resilience/Limits.antt: its limiters
--                                                per minute, and the texts of its errors
--   src/network/cache.py                         Cache/Backend.antt: ICacheBackend;
--                                                Cache/Memory.antt, Cache/Sqlite.antt: two backends;
--                                                Cache/Checks.antt: the self-test
--   src/network/cache_manager.py                 Cache/Manager.antt: CacheManager, create_cache_backend
--   src/network/concurrency.py                   Concurrency.antt: DynamicConcurrencyLimiter
--   src/core/registry.py                         Providers.antt: ProviderRegistry
--   src/core/config.py                           Config/Merge.antt: _deep_merge; Config/Migrate.antt: the
--                                                legacy migration, from_file, from_dict
--   src/core/settings_dump.py                    Settings/Redact.antt, Settings/Dump.antt
--   src/providers/descriptor.py                  Settings/Redact.antt: redact_secrets, as `describe`
--   src/health/registry.py, models.py, probes.py, service.py, api.py
--                                                Health/Registry.antt, Models.antt, Views.antt, Probes.antt,
--                                                Service.antt
--   src/catalog/models.py, registry.py, service.py
--                                                Catalog/Entries.antt, Capabilities.antt, Providers.antt,
--                                                Probes.antt, Service.antt, Views.antt
--   src/providers/composite/__init__.py          Composite.antt: routes and call_with_fallback;
--                                                Composite/Methods.antt: the five services
--   src/providers/fred.py                        Fred.antt: get_macro_series
--   src/core/config.py                           Config/Ttl.antt: lifetimes of sources; Config/Required.antt:
--                                                ensure_configured, get_required_key;
--                                                Config/Discovery.antt: load
--   src/core/llm_compress.py, llm_prompt.py      Llm/Chunks.antt: _chunk_text; Llm/Compress.antt: compression
--                                                and preparation of prompts
--   src/providers/groq.py, nvidia.py, gemini.py  Llm/Payload.antt, Llm/Generate.antt: generate_response;
--                                                Llm/Adapters.antt: the three adapters, lists of models
--   src/core/screener_parsers.py                 Screener/Parsers.antt
--   src/providers/screener.py                    Screener/Adapter.antt
--   src/providers/sentiment.py                   Intel/Stocktwits.antt, Intel/Reddit.antt, Intel/News.antt,
--                                                Intel/Voices.antt: posts and sentiment
--   src/providers/yahoo.py                       Yahoo/Guarded.antt: _execute_with_resilience;
--                                                Yahoo/Cached.antt, Quotes.antt, History.antt: prices,
--                                                metadata, statements; Yahoo/Rows.antt, Chains.antt: options
--   src/core/models.py                           Options.antt: contracts, chains and their snapshots
--   src/providers/alpha_vantage.py               AlphaVantage.antt: the check of rate limits, quotes, metadata
--   src/providers/massive.py                     Massive.antt: option chains; Massive/Requests.antt: the
--                                                other requests
--   src/catalog/handles.py                       Catalog/Handles.antt
--   src/providers/schwab.py                      Schwab.antt: _get_access_token, _get;
--                                                Schwab/Replies.antt, Operations.antt: what is behind them
--   src/catalog/adapter_registry.py, client.py   Facade/Build.antt: construction; Facade/Adapters.antt: close
-- Every other module of a folder holds lemmas and theorems, named for what they prove. Base and its
-- children are shared helpers, Text.antt the methods of `str`, Json.antt and Json/Access.antt the values of
-- `json.loads` and the access to them, Fetch.antt the pattern "get from the cache, else fetch and set" that the
-- adapters share, and Examples holds runs.
--
-- How the parts interact. A provider calls its resilient client, which acquires from the adaptive
-- limiter, asks the breaker, sends, and feeds the status back to the limiter. A composite service calls
-- the providers of its route in order. The health service selects probes by the configuration, runs
-- each against the provider of its registry entry, and reports; the catalog says which probes there are. An
-- adapter answers from the cache, or asks its service and puts the answer there. The client builds all
-- adapters over the backends of the cache manager, and closes them.
--
-- State is a value that is passed on: a limiter, a bucket or a client is a record, an operation gives
-- the new record. A Python dict with string keys is an association list in insertion order. Exceptions
-- are constructors of `Exn` in a `Result`; their texts are kept where the code makes them, but for the
-- list of candidates behind "No provider succeeded". Methods of providers are what their calls come to.
--
-- Parameters: Python's float (the record Float, whose laws hold of rounding on finite values; thousandths
-- instantiate it in Examples/Milli.antt), tenacity's AsyncRetrying, pybreaker's CircuitBreaker, cachetools'
-- LRUCache, json's dumps and loads, pydantic's dumps of the settings' sections and of what the adapters cache,
-- yfinance's tickers, what pandas makes of a table, what Unicode says of characters, `hash`, `str` and the reading of dates, the sanitizer of prompts, and what
-- each request of an adapter comes to, as a function of the request.
--
-- A breaker is told what an attempt comes to, and its record says what it makes of that. What the code protects by
-- it is an async def: a breaker that takes the call that makes the coroutine for the attempt counts a success
-- each time. That is the record CountsCalls, which request_closed assumes.
--
-- Loops that wait take the readings of the clock, and the loop over the attempts of a request the answers of
-- the transport, as lists: where the list ends first, the result is `none`. A request needs no more
-- answers than `max_retries`, or one where that is zero, if the limiter per minute grants each attempt.
--
-- In the adapters a call reads the clock once, and the fetches that `asyncio.gather` waits for run one after
-- the other, since they keep to cache keys of their own. A dump of news or of a score holds datetimes, which
-- json.dumps refuses: there the model is that of the in-memory backend.
--
-- Not modelled: the locks (calls are atomic), the wait of a request for its slot, sleeps, logging, latencies,
-- SELECT and DELETE statements of the cache that fail, pydantic's validation of settings, the options
-- of the HTTP sessions, the regular expressions of the sanitizer, the XML of feeds, the headers of requests,
-- symbols of screeners that are no texts, `describe` of most adapters, the historical prices of Alpha Vantage
-- and of Schwab and the flat files of Massive, which are requests, downloads and data frames of pandas and
-- polars.
pub mod Base
pub mod Errors
pub mod Float
pub mod Text
pub mod Llm
pub mod Json
pub mod Config
pub mod Settings
pub mod Limiter
pub mod Concurrency
pub mod Resilience
pub mod Cache
pub mod Fetch
pub mod Screener
pub mod Intel
pub mod Facade
pub mod Options
pub mod Yahoo
pub mod Schwab
pub mod Fred
pub mod AlphaVantage
pub mod Massive
pub mod Health
pub mod Catalog
pub mod Providers
pub mod Composite
pub mod Examples
