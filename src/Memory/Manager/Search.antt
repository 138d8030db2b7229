-- ===== src/Memory/Manager/Search.antt =====
-- What `semantic_search` promises.
use mathlib.Core.List.{Perm}
use agentcook.Prelude.{
  String, ℕ, ◌≡◌, refl, sym, subst, min, true, false, List, ◌++◌, Option, some, length, take, drop,
  arith, take-append-drop, length-take,
}
use agentcook.Prelude.Floats.{Floats}
use agentcook.Prelude.Results.{ok}
use agentcook.Prelude.Sorting.{sort_by, sort_by-perm, sort_by-IsSorted, length-sort_by, IsSorted}
use agentcook.Memory.Embedding.{EmbeddingProvider}
use agentcook.Memory.Entry.{MemoryLayer}
use agentcook.Memory.Store.{InMemoryStore}
use agentcook.Memory.Manager.{SearchResult, collect, semantic_search, by_score, search_layers}

module _ (fl : Floats) (embedder : EmbeddingProvider fl.Float) where
  -- `semantic_search` with an embedder answers with as many of the candidates as `top_k` allows. With
  -- the candidates that it leaves out they are all candidates, in falling order of score, if the
  -- scores are totally ordered.
  pub semantic_search-IsSorted :
      (total : (a b : fl.Float) → fl.le a b ≡ false → fl.le b a ≡ true)
      (trans : (a b c : fl.Float) → fl.le a b ≡ true → fl.le b c ≡ true → fl.le a c ≡ true)
      (now : ℕ) (agent query : String) (layers : Option (List MemoryLayer)) (top_k : ℕ)
      (store : InMemoryStore)
      → (results : List (SearchResult fl.Float)) × (rest : List (SearchResult fl.Float))
        × ((semantic_search fl (some embedder) now agent query layers top_k store).0 ≡ ok results)
        × Perm
            (results ++ rest)
            (collect fl embedder now agent
              (embedder.embed query)
              (search_layers fl embedder layers)
              store).0
        × IsSorted (by_score fl embedder) (results ++ rest)
        × (length results
            ≡ min top_k (
                length
                  (collect fl embedder now agent
                    (embedder.embed query)
                    (search_layers fl embedder layers)
                    store).0))
  unfolding semantic_search
  semantic_search-IsSorted total trans now agent query layers top_k store =
      let le = by_score fl embedder in
      let candidates =
        (collect fl embedder now agent (embedder.embed query) (search_layers fl embedder layers)
          store).0 in
      let sorted = sort_by le candidates in
      let whole = take-append-drop top_k sorted in
      (
        take top_k sorted,
        drop top_k sorted,
        refl,
        subst (λ l. Perm l candidates) (sym whole) (sort_by-perm le candidates),
        subst (IsSorted le) (sym whole) (
            sort_by-IsSorted le (λ a b. total b.score a.score)
              (λ a b c h k. trans c.score b.score a.score k h) candidates),
        omega (arith, length-take top_k sorted, length-sort_by le candidates),
      )
