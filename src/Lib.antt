-- ===== src/Lib.antt =====
-- A verification library for the programs of this repository: a crawler (crawler/crawler) that
-- searches the web for discounts for veterans and submits them, and a backend (backend/app) that
-- stores the offers, merges repeated ones and has them reviewed. The crawler's search side keeps a
-- JSON file, rotates over search backends that block it, and caches results; what it finds goes to
-- the backend's `create_offer`, which returns an existing row or adds one, and to review, where
-- `set_status` publishes a row in place of the row that it supersedes.
--
-- The files, and the code that they model:
--
--   Prelude           shared names, Boolean tests, the equality interface, lists, dictionaries, text,
--                     and the parts of Python's urllib.parse and str that the code calls
--   Search.State      crawler/crawler/discovery/search_state.py: the data of SearchState, `_save`,
--                     `_key`, the cursors; Search.Backends (health, quarantine, global backoff),
--                     Search.Phrases (paging, productivity, adaptive TTL), Search.Coverage (host
--                     frequencies, with discovery/coverage.py) and Search.Cache (the keyword cache,
--                     with SearchCache of discovery/providers.py) are its methods
--   Search.Classify   `_normalize_url` and `classify_candidate` of discovery/providers.py
--   Search.Rotation   RotatingDdgProvider of discovery/providers.py; Search.Searxng is its
--                     SearxngProvider
--   Hosts             crawler/crawler/util/hosts.py; Hosts.Quality is discovery/host_quality.py
--   Backend.Model     backend/app/models and schemas: rows, payloads and tables
--   Backend.Urlnorm   backend/app/core/urlnorm.py; Backend.Dedup is crud/dedup.py
--   Backend.Content   the helpers of `create_offer` in backend/app/crud/offer.py
--   Backend.Branches  its branches, one function each, with Branches.Shadow (2 and 3) and
--                     Branches.Known (3b to 5)
--   Backend.Intake    `create_offer`: the branches under their guards, the insert and the commit
--   Backend.Moderation  the other operations on offers; Backend.Blocklist is crud/blocked_host.py and
--                     crud/directory_host.py
--   Backend.Sources   crud/source.py, crud/suggested_source.py and crud/crawl_state.py of backend/app, with
--                     Sources.Review for the review of suggestions; Backend.Terms is crud/query_term.py
--   Backend.Queue     backend/app/dedup_queue.py, the duplicates of the moderation queue
--   Backend.Steps     all the calls that change the tables, one after the other
--   Crawl.Pace        crawler/crawler/ratelimit.py; Crawl.Schedule is scheduler.py with
--                     schedule.py; Crawl.Registry is discovery/domain_registry.py; Crawl.Grid is
--                     `merge_queries` and QueryGrid of discovery/query_grid.py
--   Crawl.Judge       crawler/crawler/judge/gate.py and cache.py; Crawl.Accounts is accounts/pool.py
--   Crawl.Rejudge     crawler/crawler/discovery/rejudge.py, the sweep of the judge over the queue
--   Search.Walk       `_collect_due` of discovery/search_pass.py
--   Discover.Select   `_select_fetch_set` of discovery/harvest.py; Discover.Harvest, Harvest.Pages and
--                     Harvest.Run are the rest of that file; Discover.Attribution, Blocklist (with
--                     geo_block.py, lang_block.py and media_autoblock.py), SubSearch, Aggregator
--                     (aggregator_feed.py), Active and Ref (`normalize_ref` of passive.py) are the
--                     files of discovery/ of that name; Discover.Types is crawler/crawler/models.py
--   Backend.Rows, Backend.Chain, Backend.Valid  facts on tables and branches that the proofs share;
--                     the modules named Laws, Keys, Recovery, Kept, Published, Valid, Refused,
--                     Publish, Keeps, Autoblock, Expiry, OnePerHost, Reviewed, Deleted, View,
--                     Stands, Refines, Fit, Spread, Account, Passes and Groups hold the proofs, and
--                     those named Tests examples
--
-- A method is a function from the state to the state, with the reading of the clock and the random
-- numbers as arguments; a method reads the clock once, where the code reads it at several points of one
-- call the time does not move between them. `_save` copies the data to the file. Times are whole
-- microseconds and ratios millionths, where the code has floats, and divisions round down; the
-- estimate of `chao1` is a fraction. Every loop of the code but one runs over a list, and is recursion on the
-- list; `next_from` takes the number of offsets left, which starts at the length of the pool. The
-- walk over the grid in Search.Walk is a recursion on fuel, the length of the grid, one unit for each
-- phrase that it may look at.
--
-- What is not under the repository is a parameter: the answer of the search service and the time it
-- takes, the provider behind the cache, the row that the database gives for a query without an order
-- (`pick`, any row that matches, by `IsPick`), and its LIKE (`like`). A table is the list of its rows
-- in the order of their ids; a call that ends with an error is rolled back. Texts are lists of code
-- points; `lower` knows Latin and Cyrillic letters, `casefold` is `lower`, and the database compares
-- texts exactly, without the case folding of a MySQL collation. URLs have no IPv6 hosts. `created_at`, `updated_at`, the review times and the sample links of
-- a blocked host are left out, and so are the validators of the payloads.
--
-- The workers of the harvest's pool work at the same time on shared objects. Each worker of the model
-- has its own view of them: at every moment at which it looks (when a candidate starts, before each
-- page, before each check of the known references, before the registry is told) it meets what the
-- others have done since, an argument of the worker (`Meanwhile`), of which only this is fixed: known
-- references are not taken back. Two workers may so pass the same check before either has added to the
-- references. Not interleaved are the single calls of a shared object, which its lock guards, and the
-- reads of the block lists within one page. The extractor, the judge, the walker, the answers of the
-- network and of the backend are records of functions (`Parts`, `Net`); where the extractor, the walker,
-- the lookup of categories, a fetch or a submission raises, that is an answer of it. A corpus file that
-- cannot be written is not modelled. Scores of query terms are values of any type.
--
-- Not modelled: reading a damaged state file, `update_offer`, the listings and facets of offers,
-- categories and accounts of the backend, the walker with robots.txt and sitemaps, the run of the
-- search pass, the generation of the query grid, the runner, locks between threads, fetching,
-- extraction, the judge's language model, and the HTTP layer.
pub mod Prelude
pub mod Search
pub mod Hosts
pub mod Backend
pub mod Crawl
pub mod Discover
