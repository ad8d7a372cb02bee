-- ===== src/Gguf/Probe/Tests.antt =====
-- Runs of scripts/probe-gguf-header.mjs.
use dip_distributed_llm_runt.Prelude.{◌≡◌, refl, true, [], ◌∷◌, some}
use dip_distributed_llm_runt.Prelude.Text.{codes}
use dip_distributed_llm_runt.Prelude.Decimal.{read_digits}
use dip_distributed_llm_runt.Gguf.Header.Start.{Located}
use dip_distributed_llm_runt.Gguf.Summary.{summarise, largest, same_text, behind}
use dip_distributed_llm_runt.Gguf.Probe.{
  main, rejected, bounded, is_url, lower_text, find_target, includes_arg, tensor_limit, limit_of,
  after_equals, up_to_equals, report_of,
}

-- A header of version 3 without tensors, as a file with the vocabulary alone has it.
abbrev vocabulary : Located
vocabulary = record {
  header = record {
    version = 3;
    tensor_count = 0;
    kv_count = 0;
    metadata = [];
    descriptors = [];
    metadata_end = 24;
    descriptors_end = 24;
  };
  alignment = some 32;
  start = some 32;
}

no_tensor_throws : main (codes "m" ∷ []) (some vocabulary) 1024 1 ≡ rejected
unfolding main find_target behind includes_arg same_text report_of summarise largest
no_tensor_throws = refl

knows_urls : is_url (codes "HTTPS://a") ≡ true
unfolding is_url lower_text behind
knows_urls = refl

reads_limit : tensor_limit (codes "m" ∷ codes "--tensors=12" ∷ []) ≡ bounded 12
unfolding tensor_limit behind limit_of after_equals up_to_equals read_digits
reads_limit = refl
