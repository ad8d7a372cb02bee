-- ===== src/Gguf/Header/Descriptors.antt =====
-- The readers of tensor descriptors on what the format writes.
use dip_distributed_llm_runt.Prelude.{
  ℕ, ◌+◌, ◌^◌, ◌<◌, ◌≡◌, false, List, [], ◌∷◌, ◌++◌, append-nil, length, All, ltb, arith,
}
use dip_distributed_llm_runt.Gguf.Program.{Reader, ret, pure, ◌>>=◌, then_}
use dip_distributed_llm_runt.Gguf.Header.{Tensor, u32, u64, string, dimensions, tensor, tensors}
use dip_distributed_llm_runt.Gguf.Header.Tables.{tensor_bytes}
use dip_distributed_llm_runt.Gguf.Header.Parsing.{
  Parses, Parses-as, Parses-pure, Parses-bind, Parses-map,
}
use dip_distributed_llm_runt.Gguf.Header.Fields.{Parses-u32, Parses-u64, Parses-string}
use dip_distributed_llm_runt.Gguf.Header.Writing.{
  le, write_string, write_numbers, write_tensor, write_tensors, IsTensor,
}

Parses-dimensions :
    (offset : ℕ) (ds : List ℕ)
    → All (λ n. n < 256 ^ 8) ds
    → Parses offset (dimensions (length ds)) (write_numbers 8 ds) ds
unfolding dimensions
Parses-dimensions offset [] h = Parses-pure offset []
Parses-dimensions offset (d ∷ ds) (h, hs) =
    Parses-bind offset u64 _ (le 8 d) (write_numbers 8 ds) d (d ∷ ds) (Parses-u64 offset d h) (
      Parses-map (offset + length (le 8 d)) (dimensions (length ds)) (λ l. d ∷ l)
        (write_numbers 8 ds) ds (Parses-dimensions (offset + length (le 8 d)) ds hs))

Parses-size :
    (offset type : ℕ) (dims : List ℕ) (size : ℕ)
    → tensor_bytes type dims ≡ ret size
    → Parses offset (λ at. then_ (tensor_bytes type dims) (λ n. pure n at)) [] size
unfolding then_
Parses-size offset type dims size e = rw e (Parses-pure offset size)

-- The last part of a descriptor, with the size computed on the way.
abbrev tensor_end : List ℕ → List ℕ → ℕ → Reader Tensor
tensor_end name dims type = do
  offset ← u64
  size ← (λ at. then_ (tensor_bytes type dims) (λ n. pure n at))
  pure (record { name = name; dims = dims; type = type; offset = offset; size = size })

abbrev with_size : List ℕ → List ℕ → ℕ → ℕ → Reader Tensor
with_size name dims type offset = do
  size ← (λ at. then_ (tensor_bytes type dims) (λ n. pure n at))
  pure (record { name = name; dims = dims; type = type; offset = offset; size = size })

Parses-tensor_end :
    (at : ℕ) (t : Tensor)
    → t.offset < 256 ^ 8
    → tensor_bytes t.type t.dims ≡ ret t.size
    → Parses at (tensor_end t.name t.dims t.type) (le 8 t.offset) t
Parses-tensor_end at t place size =
    let next = at + length (le 8 t.offset) in
    Parses-as at (tensor_end t.name t.dims t.type) (le 8 t.offset ++ []) (le 8 t.offset) t
      (append-nil (le 8 t.offset))
      (Parses-bind at u64 (with_size t.name t.dims t.type) (le 8 t.offset) [] t.offset t
        (Parses-u64 at t.offset place)
        (Parses-map next (λ n. then_ (tensor_bytes t.type t.dims) (λ k. pure k n))
          (λ n. record { name = t.name; dims = t.dims; type = t.type; offset = t.offset; size = n })
          [] t.size (Parses-size next t.type t.dims t.size size)))

Parses-tensor : (offset : ℕ) (t : Tensor) → IsTensor t → Parses offset tensor (write_tensor t) t
unfolding tensor
Parses-tensor offset t (name, few, dims, type, place, size) =
    let wide : ltb 4 (length t.dims) ≡ false = ground arith in
    let a = offset + length (write_string t.name) in
    let b = a + length (le 4 (length t.dims)) in
    let c = b + length (write_numbers 8 t.dims) in
    let d = c + length (le 4 t.type) in
    Parses-bind offset string _ (write_string t.name) _ t.name t (Parses-string offset t.name name)
      (Parses-bind a u32 _ (le 4 (length t.dims)) _ (length t.dims) t
        (Parses-u32 a (length t.dims) (omega arith))
        (rw wide (
          Parses-bind b (dimensions (length t.dims)) (λ ds. u32 >>= λ k. tensor_end t.name ds k)
            (write_numbers 8 t.dims) _ t.dims t (Parses-dimensions b t.dims dims)
            (Parses-bind c u32 (λ k. tensor_end t.name t.dims k) (le 4 t.type) (le 8 t.offset)
              t.type t (Parses-u32 c t.type type) (Parses-tensor_end d t place size)))))

pub Parses-tensors :
    (offset : ℕ) (ts : List Tensor)
    → All IsTensor ts
    → Parses offset (tensors (length ts)) (write_tensors ts) ts
unfolding tensors
Parses-tensors offset [] h = Parses-pure offset []
Parses-tensors offset (t ∷ ts) (h, hs) =
    Parses-bind offset tensor _ (write_tensor t) (write_tensors ts) t (t ∷ ts)
      (Parses-tensor offset t h)
      (Parses-map (offset + length (write_tensor t)) (tensors (length ts)) (λ l. t ∷ l)
        (write_tensors ts) ts (Parses-tensors (offset + length (write_tensor t)) ts hs))
