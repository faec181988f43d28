-- ===== src/Connectors/Transfer/Pages.antt =====
-- What is loaded into the blocks of a paged buffer is what is saved from them.
use native.Mathlib.Nat.{zero-mul}
use mathlib.Core.List.{flatten}
use llmcache.Prelude.{
  ℕ, suc, ◌+◌, ◌*◌, ◌≡◌, ◌≤◌, ◌<◌, refl, ap, ap₂, sym, ◌∙◌, subst, false, List, [], ◌∷◌, map,
  length, ◌||◌, take, drop, range_from, ℕ_discrete, arith, drop-drop, length-drop, length-take,
  take-append-drop,
}
use llmcache.Types.Chunks.{cut}
use llmcache.Results.{Result, ok, err, ◌>>=◌}
use llmcache.Types.{slice}
use llmcache.Payload.{KvPayload, end}
use llmcache.Sets.{has, IsSetLike}
use llmcache.Connectors.Transfer.Split.{split_evenly-flatten, runs-cut, run_of_slice}
use llmcache.Connectors.Transfer.{
  Layout, Buffer, blocks_per_chunk, split_evenly, write_blocks, block, write_chunks, load_into,
  save_from,
}
use llmcache.Connectors.Transfer.Blocks.{
  has-append, Apart, IsSetLike-append, read, write_blocks-other, write_blocks-read, read_same,
}

pub map-comp :
    {A B C : Type 0} (g : B → C) (f : A → B) (xs : List A)
    → map (λ x. g (f x)) xs ≡ map g (map f xs)
map-comp g f [] = refl
map-comp g f (x ∷ xs) = ap (◌∷◌ (g (f x))) (map-comp g f xs)

module _ (bpc : ℕ) (ids : List ℕ) (pos : 0 < bpc) where
  -- The blocks from chunk `i` on, and those of chunk `i`.
  abbrev from : ℕ → List ℕ
  from i = drop (i * bpc) ids

  abbrev run : ℕ → List ℕ
  run i = take bpc (from i)

  from-suc : (i : ℕ) → drop bpc (from i) ≡ from (suc i)
  from-suc i = drop-drop (i * bpc) bpc ids ∙ ap (λ k. drop k ids) (omega arith)

  parts_of :
      (i : ℕ)
      → IsSetLike ℕ_discrete (from i)
      → IsSetLike ℕ_discrete (run i)
        × IsSetLike ℕ_discrete (from (suc i))
        × Apart (run i) (from (suc i))
  parts_of i h =
      subst (λ r. IsSetLike ℕ_discrete (run i) × IsSetLike ℕ_discrete r × Apart (run i) r)
        (from-suc i)
        (IsSetLike-append (run i) (drop bpc (from i))
          (subst (IsSetLike ℕ_discrete) (sym (take-append-drop bpc (from i))) h))

  abbrev after : ℕ → KvPayload → Buffer → Buffer
  after i p buffer = write_blocks (run i) (split_evenly p.bytes (length (run i))) buffer

  write_chunks-cons :
      (i : ℕ) (p : KvPayload) (ps : List KvPayload) (buffer : Buffer)
      → write_chunks bpc ids i (p ∷ ps) buffer ≡ write_chunks bpc ids (suc i) ps (after i p buffer)
  unfolding write_chunks
  write_chunks-cons i p ps buffer =
      ap
        (λ r.
          write_chunks bpc ids (suc i) ps (write_blocks r (split_evenly p.bytes (length r)) buffer))
        (run_of_slice bpc i ids)

  write_chunks-other :
      (i : ℕ) (ps : List KvPayload) (buffer : Buffer) (c : ℕ)
      → has ℕ_discrete (from i) c ≡ false
      → block (write_chunks bpc ids i ps buffer) c ≡ block buffer c
  unfolding write_chunks
  write_chunks-other i [] buffer c h = refl
  write_chunks-other i (p ∷ ps) buffer c h =
      let both : (has ℕ_discrete (run i) c || has ℕ_discrete (from (suc i)) c) ≡ false =
        ap (λ r. has ℕ_discrete (run i) c || has ℕ_discrete r c) (sym (from-suc i))
        ∙ sym (has-append (run i) (drop bpc (from i)) c)
        ∙ ap (λ r. has ℕ_discrete r c) (take-append-drop bpc (from i))
        ∙ h in
      ap (λ b. block b c) (write_chunks-cons i p ps buffer)
      ∙ write_chunks-other (suc i) ps (after i p buffer) c (ground arith)
      ∙ write_blocks-other (run i) (split_evenly p.bytes (length (run i))) buffer c (ground arith)

  -- The blocks of chunk `i`, once it and the later ones have been written.
  run-read :
      (i : ℕ) (p : KvPayload) (ps : List KvPayload) (buffer : Buffer)
      → IsSetLike ℕ_discrete (from i)
      → suc (length ps) * bpc ≤ length (from i)
      → flatten (read (write_chunks bpc ids (suc i) ps (after i p buffer)) (run i)) ≡ p.bytes
  run-read i p ps buffer distinct fits =
      let (own, _, apart) = parts_of i distinct in
      let (count, flat) =
        split_evenly-flatten p.bytes (length (run i))
          (omega (arith, pos, length-take bpc (from i))) in
      ap flatten (
        read_same (write_chunks bpc ids (suc i) ps (after i p buffer)) (after i p buffer) (run i)
          (λ b h. write_chunks-other (suc i) ps (after i p buffer) b (apart b h))
        ∙ write_blocks-read (run i) (split_evenly p.bytes (length (run i))) buffer own count)
      ∙ flat

  -- Each chunk's blocks hold the bytes of its payload when all have been written.
  pub write_chunks-read :
      (i : ℕ) (ps : List KvPayload) (buffer : Buffer)
      → IsSetLike ℕ_discrete (from i)
      → length ps * bpc ≤ length (from i)
      → map
          (λ r. flatten (read (write_chunks bpc ids i ps buffer) r))
          (cut (length ps) bpc (from i))
        ≡ map (λ p. p.bytes) ps
  unfolding cut
  write_chunks-read i [] buffer distinct fits = refl
  write_chunks-read i (p ∷ ps) buffer distinct fits =
      let rest = write_chunks bpc ids (suc i) ps (after i p buffer) in
      let reads = λ (b : Buffer). map (λ r. flatten (read b r)) in
      ap (λ b. reads b (cut (suc (length ps)) bpc (from i))) (write_chunks-cons i p ps buffer)
      ∙ ap₂ ◌∷◌ (run-read i p ps buffer distinct fits) (
          ap (λ r. reads rest (cut (length ps) bpc r)) (from-suc i)
          ∙ write_chunks-read (suc i) ps (after i p buffer) (parts_of i distinct).1
              (omega (arith, ap length (from-suc i), length-drop bpc (from i), fits)))

abbrev pub labelled : Layout → List ℕ → KvPayload
labelled l bytes = record {
  bytes = bytes;
  num_tokens = l.chunk_size;
  num_layers = l.num_layers;
  fmt = "raw";
  meta = end;
}

pub load_into_lem :
    (l : Layout) (ids : List ℕ) (payloads : List KvPayload) (buffer : Buffer) {bpc : ℕ}
    → blocks_per_chunk l ≡ ok bpc
    → load_into l ids payloads buffer ≡ (ok tt, write_chunks bpc ids 0 payloads buffer)
unfolding load_into
load_into_lem l ids payloads buffer h =
    ap
      (λ (r : Result ℕ). elim r as (λ _. Result (Unit {0}) × Buffer) [
        | ok bpc ↦ (ok tt, write_chunks bpc ids 0 payloads buffer)
        | err x ↦ (err x, buffer)
      ])
      h

pub save_from_lem :
    (l : Layout) (ids : List ℕ) (n : ℕ) (buffer : Buffer) {bpc : ℕ}
    → blocks_per_chunk l ≡ ok bpc
    → save_from l ids n buffer ≡ (
      ok (map (λ r. labelled l (flatten (read buffer r))) (cut n bpc (drop (0 * bpc) ids))),
      buffer,
    )
unfolding save_from
save_from_lem l ids n buffer {bpc} h =
    ap
      (λ (r : Result ℕ). (
        r >>= λ bpc. ok (map (λ i. label (slice ids (i * bpc) ((i + 1) * bpc))) (range_from 0 n)),
        buffer,
      ))
      h
    ∙ ap (λ x. (ok x, buffer))
        (map-comp label (λ i. slice ids (i * bpc) ((i + 1) * bpc)) (range_from 0 n)
          ∙ ap (map label) (runs-cut bpc 0 n ids))
  where
    label : List ℕ → KvPayload
    label r = labelled l (flatten (read buffer r))

-- Loading payloads into blocks that are distinct and enough, and saving as many chunks from the
-- same blocks, gives payloads with the same bytes in the same order, labelled by the layout.
pub save-load :
    (l : Layout) (ids : List ℕ) (payloads : List KvPayload) (buffer : Buffer) {bpc : ℕ}
    → blocks_per_chunk l ≡ ok bpc
    → 0 < bpc
    → IsSetLike ℕ_discrete ids
    → length payloads * bpc ≤ length ids
    → (save_from l ids (length payloads) (load_into l ids payloads buffer).1).0
      ≡ ok (map (λ p. labelled l p.bytes) payloads)
save-load l ids payloads buffer {bpc} h pos distinct fits =
    let loaded = write_chunks bpc ids 0 payloads buffer in
    ap (λ r. (save_from l ids (length payloads) r.1).0) (load_into_lem l ids payloads buffer h)
    ∙ ap (λ r. r.0) (save_from_lem l ids (length payloads) loaded h)
    ∙ ap ok (
        map-comp (labelled l) (λ r. flatten (read loaded r))
          (cut (length payloads) bpc (drop (0 * bpc) ids))
        ∙ ap (map (labelled l)) (
            write_chunks-read bpc ids pos 0 payloads buffer
              (subst (λ k. IsSetLike ℕ_discrete (drop k ids)) (sym (zero-mul bpc)) distinct)
              (omega (arith, length-drop (0 * bpc) ids, fits)))
        ∙ sym (map-comp (labelled l) (λ (p : KvPayload). p.bytes) payloads))
