-- ===== src/Llamacpp.antt =====
-- internal/runtime/llamacpp/gguf.go: which files of a repository are the model.
pub mod Shards
pub mod Quants
