-- ===== src/Yahoo.antt =====
-- `YahooFinanceAdapter` of src/providers/yahoo.py. yfinance, pandas, pybreaker and tenacity are parameters.
pub mod Guarded
pub mod Retried
pub mod Cached
pub mod Quotes
pub mod History
pub mod Remembered
pub mod Rows
pub mod Chains
pub mod Expiries
