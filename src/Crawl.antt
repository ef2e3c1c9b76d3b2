-- ===== src/Crawl.antt =====
-- The control of the crawl (crawler/crawler): the pace of the requests, the rating of domains, the
-- rotation over the queries, and the choice of the next pass.
pub mod Pace
pub mod Registry
pub mod Grid
pub mod Schedule
pub mod Judge
pub mod Rejudge
pub mod Accounts
pub mod Tests
