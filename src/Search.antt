-- ===== src/Search.antt =====
-- The search side of the crawler (crawler/crawler/discovery/search_state.py and providers.py).
pub mod Walk
pub mod State
pub mod Backends
pub mod Classify
pub mod Rotation
pub mod Searxng
pub mod Phrases
pub mod Coverage
pub mod Cache
pub mod Tests
