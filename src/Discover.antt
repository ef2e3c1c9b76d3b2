-- ===== src/Discover.antt =====
-- The active discovery of the crawler (crawler/crawler/discovery): the block lists, the choice of
-- the candidates to fetch, their harvest, and the feeds that supply them.
pub mod Types
pub mod Ref
pub mod Blocklist
pub mod Select
pub mod Attribution
pub mod SubSearch
pub mod Aggregator
pub mod Harvest
pub mod Active
pub mod Tests
