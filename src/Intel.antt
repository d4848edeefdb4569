-- ===== src/Intel.antt =====
-- `NewsSentimentAdapter` of src/providers/sentiment.py: news, social posts and sentiment.
pub mod Sources
pub mod Stocktwits
pub mod Reddit
pub mod News
pub mod Voices
pub mod Order
pub mod Newest
pub mod Bounds
