-- ===== src/Memory/Embedding.antt =====
-- `EmbeddingProvider` of memory.py, an injected collaborator.
use agentcook.Prelude.{String}

-- `EmbeddingProvider` of memory.py: `Vector` is `list[float]`.
pub record EmbeddingProvider (Float : Type 0) : Type 1 where
  pub Vector : Type 0
  pub embed : String → Vector
  pub similarity : Vector → Vector → Float
