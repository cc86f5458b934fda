-- ===== src/Core/Retrieval.antt =====
-- core/retriever.py and core/retrieval/: documents of the knowledge base, their search, and what is
-- said of where an answer comes from.
pub mod Documents
pub mod Terms
pub mod Retriever
pub mod Reranker
pub mod Attribution
pub mod SearchKb
pub mod Hits
