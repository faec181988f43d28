-- ===== src/Tests/Types.antt =====
-- Examples of the theorems on tokens and chunks.
use mathlib.Core.List.{flatten}
use llmcache.Prelude.{ℕ, ◌≡◌, ◌⊎◌, refl, List, [], ◌∷◌, length, arith, Bool-cases, String_discrete}
use llmcache.Int.{ℤ, pos, negsuc}
use llmcache.Results.{ok}
use llmcache.Payload.{KvPayload, end}
use llmcache.Types.{chunk_token_ids, absorb, matched_chunk_count}
use llmcache.Types.Chunks.{num_chunks_for, IsChunked, chunk_token_ids-IsChunked}
use llmcache.Types.Encoding.{fed_inj}
use llmcache.Types.Matching.{IsReusable, Collision, fingerprints, matched_chunk_count-IsReusable}
use llmcache.Tests.Data.{tokens, descriptor, first_byte}

chunk_token_ids-IsChunked_example :
    (chunks : List (List ℤ)) × (chunk_token_ids tokens 2 ≡ ok chunks)
    × (flatten chunks ≡ tokens)
    × (length chunks ≡ num_chunks_for (length tokens) 2)
    × IsChunked 2 chunks
chunk_token_ids-IsChunked_example = chunk_token_ids-IsChunked tokens 2 (omega arith)

abbrev signed : List ℤ
signed = pos 258 ∷ negsuc 0 ∷ []

abbrev signed_bytes : List ℕ
signed_bytes = 2 ∷ 1 ∷ 0 ∷ 0 ∷ 255 ∷ 255 ∷ 255 ∷ 255 ∷ []

signed_fed : absorb [] signed ≡ ok signed_bytes
unfolding absorb llmcache.Types.to_bytes
signed_fed = refl

fed_inj_example : signed ≡ signed
fed_inj_example = fed_inj signed signed signed_fed signed_fed

abbrev request : List ℤ
request = pos 1 ∷ pos 2 ∷ pos 9 ∷ []

abbrev cut_tokens : List (List ℤ)
cut_tokens = (pos 1 ∷ pos 2 ∷ []) ∷ (pos 3 ∷ []) ∷ []

tokens_cut : chunk_token_ids tokens 2 ≡ ok cut_tokens
unfolding chunk_token_ids
tokens_cut = refl

tokens_printed : fingerprints first_byte cut_tokens ≡ ok ("one" ∷ "three" ∷ [])
unfolding fingerprints llmcache.Types.token_fingerprint llmcache.Types.to_bytes
tokens_printed = refl

request_counted : matched_chunk_count first_byte request descriptor ≡ ok 1
unfolding matched_chunk_count llmcache.Types.token_fingerprint llmcache.Types.to_bytes
    String_discrete Bool-cases
request_counted = refl

matched_chunk_count-IsReusable_example : IsReusable 2 request tokens 1 ⊎ Collision first_byte
matched_chunk_count-IsReusable_example =
    matched_chunk_count-IsReusable first_byte request tokens descriptor cut_tokens (omega arith)
      tokens_cut tokens_printed request_counted

abbrev packed : KvPayload
packed = record { bytes = 7 ∷ 8 ∷ []; num_tokens = 2; num_layers = 1; fmt = "raw"; meta = end }
