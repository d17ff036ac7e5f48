-- ===== src/Crawler.antt =====
-- The breadth-first crawl that builds a site's page index: its data and its loop.
-- packages/warcraft-content/src/warcraft_content/site_crawler.py
pub mod Data
pub mod Fetch
pub mod Walk
pub mod Tally
pub mod Budget
pub mod Waiting
pub mod Measure
pub mod Once
pub mod Ends
