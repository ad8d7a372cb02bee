-- ===== src/Runtime/Model/Tests.antt =====
-- Runs of the model file of runtime/llmlet-runtime.js on chunks of four bytes.
use dip_distributed_llm_runt.Prelude.{
  ℕ, ℕ_discrete, ◌≡◌, ◌⊎◌, refl, List, [], ◌∷◌, some, none, arith, length,
}
use dip_distributed_llm_runt.Prelude.Dict
use dip_distributed_llm_runt.Runtime.Model.{
  ChunkKey-discrete, chunk_key, fetch_whole_model_to_cache, flush_full, copy_value, download,
  copied, read, llseek, seek, find, assign,
}
use dip_distributed_llm_runt.Runtime.Model.Preload.{preload_hit}
use dip_distributed_llm_runt.Runtime.Model.Reads.{
  Mount, reads, Reach, here, next, mounted, after_read, after_load, IsServing,
}
use dip_distributed_llm_runt.Runtime.Model.Serving.{Reach-IsServing}
use dip_distributed_llm_runt.Runtime.Model.Answers.{
  Copies, ComesBack, read_answered, read-after_load,
}

abbrev values : List (List ℕ)
values = (1 ∷ 2 ∷ 3 ∷ []) ∷ (4 ∷ 5 ∷ 6 ∷ 7 ∷ 8 ∷ 9 ∷ []) ∷ (10 ∷ []) ∷ []

abbrev file : List ℕ
file = 1 ∷ 2 ∷ 3 ∷ 4 ∷ 5 ∷ 6 ∷ 7 ∷ 8 ∷ 9 ∷ 10 ∷ []

cached :
    fetch_whole_model_to_cache 4 values []
    ≡ (record { begin = 0; stop = 4 }, 1 ∷ 2 ∷ 3 ∷ 4 ∷ [])
      ∷ (record { begin = 4; stop = 8 }, 5 ∷ 6 ∷ 7 ∷ 8 ∷ [])
      ∷ (record { begin = 8; stop = 10 }, 9 ∷ 10 ∷ [])
      ∷ []
unfolding fetch_whole_model_to_cache download copy_value flush_full Dict.set ChunkKey-discrete
    ℕ_discrete
cached = refl

-- A position before the start is an error, also from the end.
seeks :
    llseek 0 5 0 3 10 ∷ llseek 1 2 0 3 10 ∷ llseek 2 0 4 3 10 ∷ llseek 1 0 4 3 10 ∷ []
    ≡ some 5 ∷ some 5 ∷ some 6 ∷ none ∷ []
unfolding llseek seek
seeks = refl

preload_hit_example :
    Dict.get ChunkKey-discrete (chunk_key 4 10 2) (fetch_whole_model_to_cache 4 values [])
    ≡ some (9 ∷ 10 ∷ [])
preload_hit_example = preload_hit 4 2 values [] (omega arith) (omega arith)

-- A read at 5 has begun to load chunk 1.
abbrev begun : Mount
begun = after_read 4 3 5 100 (mounted (length file))

begun-Reach : Reach 4 file (mounted (length file)) begun
begun-Reach = next here (reads 3 5 100 (omega arith))

begun_loading : begun.loading 1 ≡ 1
unfolding read find assign
begun_loading = refl

Reach-IsServing_example : IsServing 4 file begun
Reach-IsServing_example = Reach-IsServing 4 file begun begun-Reach

read_answered_example :
    Copies 4 3 5 file (read 4 3 5 101 begun.node).0
    ⊎ (ComesBack (chunk_key 4 begun.node.size 1) (read 4 3 5 101 begun.node).0
        × ((after_read 4 3 5 101 begun).loading 1 ≡ 1))
read_answered_example =
    read_answered 4 3 5 101 file begun (Reach-IsServing 4 file begun begun-Reach) (omega arith)
      (omega arith) (omega arith)

read-after_load_example :
    (read 4 3 5 101 (after_load 4 1 file begun).node).0 ≡ copied (6 ∷ 7 ∷ 8 ∷ [])
read-after_load_example =
    read-after_load 4 3 5 101 file begun (Reach-IsServing 4 file begun begun-Reach) (omega arith)
      (omega arith) (omega arith) (omega (arith, begun_loading))
