-- ===== src/Llm.antt =====
-- Prompts of language models: chunks, compression, preparation (src/core/llm_compress.py,
-- src/core/llm_prompt.py), and the providers that send them.
pub mod Chunks
pub mod Slices
pub mod Words
pub mod Compress
pub mod Payload
pub mod Generate
pub mod Adapters
pub mod Repeated
