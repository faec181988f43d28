-- ===== src/Store/Disk/Promises.antt =====
-- What the disk store of src/llmcache/store/disk.py answers after a `put`, and that it keeps pinned
-- objects.
use llmcache.Prelude.{
  ◌<◌, ◌≤◌, ◌≡◌, ◌≢◌, refl, ap, sym, ◌∙◌, Bool, true, none, some, List, arith, if_pos, if_neg,
  length, ℕ, dec_lt,
}
use llmcache.Results.{ok, err, overflow_error}
use llmcache.Types.{ChunkKey, ChunkKey_discrete}
use llmcache.Payload.{KvPayload}
use llmcache.Payload.Framing.{JsonCodec, header_bytes, pack_payload, read}
use llmcache.Payload.Framing.RoundTrip.{unpack-pack, read-pack}
use llmcache.Store.Contract.{KeepsPinnedOf}
use llmcache.Store.Disk.{Disk, put, get, pin, unpin, backend}
use llmcache.Store.Disk.Names.{Named}
use llmcache.Store.Disk.Files.{file_of, put-stored, put-failed, remove-file}

module _ (json : JsonCodec) where
  -- For keys whose cache id names a directory, and where the file system raises no error: a `put`
  -- returns exactly when the encoded header is shorter than 2^32 bytes: then a `get` of its key
  -- returns the object, and a `get` of any other such key answers as before. If it is longer, `put`
  -- raises OverflowError, and a `get` of any key, its own too, answers as before.
  pub get-put_object :
      (k : ChunkKey) (o : KvPayload) (p : Bool) (d : Disk)
      → Named k
      → (length (header_bytes json o) < 4294967296
          → ((put json k o p d).0 ≡ ok tt)
            × ((get json k (put json k o p d).1).0 ≡ ok (some o))
            × ((j : ChunkKey)
                → Named j
                → j ≢ k
                → (get json j (put json k o p d).1).0 ≡ (get json j d).0))
        × (4294967296 ≤ length (header_bytes json o)
            → ((put json k o p d).0 ≡ err overflow_error)
              × ((j : ChunkKey) → (get json j (put json k o p d).1).0 ≡ (get json j d).0))
  unfolding get
  get-put_object k o p d named = (
    λ short.
        let (blob, packed, _, _) = (unpack-pack json o).0 short in
        let (returns, stored) = put-stored json k o p d named packed in
        (
          returns,
          ap (read json)
                (stored k named ∙ if_pos (ChunkKey_discrete k k) refl (some blob) (file_of d k))
              ∙ read-pack json o blob packed,
          λ j i ne.
              ap (read json) (stored j i ∙ if_neg _ (λ e. ne (sym e)) (some blob) (file_of d j)),
        ),
    λ long.
        let (raises, same) = put-failed json k o p d ((unpack-pack json o).1 long) in
        (raises, λ j. ap (read json) (same j)),
  )

  -- The key has a file, and the object is packed in it.
  abbrev pub IsFiled : Disk → ChunkKey → KvPayload → Type 0
  IsFiled d k o =
      Named k × (blob : List ℕ) × (pack_payload json o ≡ ok blob) × (file_of d k ≡ some blob)

  put-IsFiled :
      (k : ChunkKey) (o : KvPayload) (p : Bool) (d : Disk)
      → Named k
      → (put json k o p d).0 ≡ ok tt
      → IsFiled (put json k o p d).1 k o
  put-IsFiled k o p d named h = elim (dec_lt (length (header_bytes json o)) 4294967296) [
    | yes short ↦
        let (blob, packed, _, _) = (unpack-pack json o).0 short in
        (
          named,
          blob,
          packed,
          (put-stored json k o p d named packed).1 k named
              ∙ if_pos (ChunkKey_discrete k k) refl (some blob) (file_of d k),
        )
    | no long ↦
        absurd (
          ground
            (arith, sym (put-failed json k o p d ((unpack-pack json o).1 (omega arith))).0 ∙ h))
  ]

  put_others :
      (k : ChunkKey) (o : KvPayload) (p : Bool) (d : Disk) (j : ChunkKey)
      → Named k
      → Named j
      → j ≢ k
      → file_of (put json k o p d).1 j ≡ file_of d j
  put_others k o p d j named i ne = elim (dec_lt (length (header_bytes json o)) 4294967296) [
    | yes short ↦
        let (blob, packed, _, _) = (unpack-pack json o).0 short in
        (put-stored json k o p d named packed).1 j i
        ∙ if_neg _ (λ e. ne (sym e)) (some blob) (file_of d j)
    | no long ↦ (put-failed json k o p d ((unpack-pack json o).1 (omega arith))).1 j
  ]

  -- For keys whose cache id names a directory, a `DiskBackend` keeps the promise about pinned
  -- objects: what a `put` that returns has stored is found by `get` until a `put`, a `remove` or an
  -- `unpin` of the same key, as long as all calls are about such keys and the file system raises no
  -- error.
  pub backend-KeepsPinnedOf : KeepsPinnedOf Named (backend json)
  unfolding backend get pin unpin
  backend-KeepsPinnedOf = record {
    Holds = IsFiled;
    put_holds = λ k o d named h. put-IsFiled k o true d named h;
    put_keeps = λ k o p d j o' named ne (i, blob, packed, filed).
        (i, blob, packed, put_others k o p d j named i ne ∙ filed);
    get_returns =
        λ k o d named (i, blob, packed, filed). ap (read json) filed ∙ read-pack json o blob packed;
    get_keeps = λ k d j o named h. h;
    remove_keeps = λ k d j o named ne (i, blob, packed, filed). (
      i,
      blob,
      packed,
      remove-file json k d j named i ∙ if_neg _ (λ e. ne (sym e)) none (file_of d j) ∙ filed,
    );
    pin_keeps = λ k d j o named h. h;
    unpin_keeps = λ k d j o named ne h. h;
  }
