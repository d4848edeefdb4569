-- ===== src/Screener.antt =====
-- The screeners (src/core/screener_parsers.py, src/providers/screener.py, src/providers/tradingview.py).
pub mod Parsers
pub mod Adapter
pub mod Answers
