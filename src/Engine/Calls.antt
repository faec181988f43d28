-- ===== src/Engine/Calls.antt =====
-- Any sequence of calls of the engine, some of which may raise, and what keeps a property of the
-- engine through all of them. `stats` only asks the store, and is left out.
pub mod Reads
pub mod Sweeps
pub mod Writes
pub mod Sequences
pub mod Spared
pub mod Survival
pub mod Soundness
use llmcache.Prelude.{ℕ, suc, ◌≡◌, String, Bool, Option, some, List, [], ◌∷◌, true, String_discrete}
use llmcache.Int.{ℤ}
use llmcache.Results.{ok}
use llmcache.Types.{ChunkKey, CacheDescriptor, chunk_token_ids, is_expired}
use llmcache.Payload.{KvPayload}
use llmcache.Dict
use llmcache.Store.{StorageBackend}
use llmcache.Engine.State.{Env, Engine}
use llmcache.Engine.Register.{Payloads}
use llmcache.Engine.Lifecycle.{update}
use llmcache.Engine.Built.{IsBuilt}

pub data Call : Type 0 where
  register : List ℤ → Payloads → Option String → Option ℤ → Bool → Option String → Call
  put_chunk : String → ℕ → KvPayload → ℕ → Bool → Call
  commit : String → List ℤ → ℕ → List ℕ → Option ℤ → Bool → Option String → Call
  get exists delete pin unpin : String → Call
  lookup : String → Option (List ℤ) → Call
  load : String → Option ℕ → ℕ → Call
  extend_ttl : String → ℤ → Call
  sweep_expired list : Call

-- Every element of the list.
abbrev pub All {ℓ} : {A : Type ℓ} → (A → Type 0) → List A → Type 0
All P [] = Unit
All P (x ∷ xs) = P x × All P xs

-- What each step of an operation on the cache ids in `Mine` keeps: `Q` of the engine, and `Good` of
-- the descriptors that it stores. Under `Sweeps`, a sweep is about cache ids in `Mine` only.
pub record Rules {S : Type 0} (env : Env) (store : StorageBackend S) (Mine : String → Type 0)
    (Sweeps : Type 0) (Good : String → CacheDescriptor → Type 0) (Q : Engine S → Type 0)
    : Type 0 where
  pub clock : (e : Engine S) → Q e → Q (record e { readings = suc e.readings })
  pub ids : (e : Engine S) → Q e → Q (record e { ids = suc e.ids })
  pub put :
      (k : ChunkKey) (o : KvPayload) (p : Bool) (e : Engine S)
      → Mine k.cache_id
      → Q e
      → Q (record e { store = (store.put k o p e.store).1 })
  pub get :
      (k : ChunkKey) (e : Engine S)
      → Mine k.cache_id
      → Q e
      → Q (record e { store = (store.get k e.store).1 })
  pub remove :
      (k : ChunkKey) (e : Engine S)
      → Mine k.cache_id
      → Q e
      → Q (record e { store = (store.remove k e.store).1 })
  pub pin :
      (k : ChunkKey) (e : Engine S)
      → Mine k.cache_id
      → Q e
      → Q (record e { store = (store.pin k e.store).1 })
  pub unpin :
      (k : ChunkKey) (e : Engine S)
      → Mine k.cache_id
      → Q e
      → Q (record e { store = (store.unpin k e.store).1 })
  pub found :
      (cid : String) (e : Engine S) (d : CacheDescriptor)
      → Q e
      → Dict.get String_discrete e.descriptors cid ≡ some d
      → Good cid d
  pub forget :
      (cid : String) (e : Engine S)
      → Mine cid
      → Q e
      → Q (record e { descriptors = Dict.remove String_discrete e.descriptors cid })
  pub save :
      (cid : String) (d : CacheDescriptor) (e : Engine S)
      → Mine cid
      → Good cid d
      → Q e
      → Q (update cid d e)
  pub used :
      (cid : String) (d : CacheDescriptor) (now : ℤ)
      → Good cid d
      → Good cid (record d { hits = suc d.hits; last_used_at = some now })
  pub moved :
      (cid : String) (d : CacheDescriptor) (at : ℤ)
      → Good cid d
      → Good cid (record d { expires_at = some at })
  pub marked :
      (cid : String) (d : CacheDescriptor) (p : Bool)
      → Good cid d
      → Good cid (record d { pinned = p })
  pub built :
      (cid : String) (tokens : List ℤ) (chunks : List (List ℤ)) (workers : List ℕ) (ttl : Option ℤ)
      (e t : Engine S) (d : CacheDescriptor) (t' : Engine S)
      → Q e
      → Q t
      → chunk_token_ids tokens e.chunk_size ≡ ok chunks
      → IsBuilt env cid chunks workers ttl t d t'
      → Good cid d
  pub swept :
      (e : Engine S) (n : ℕ)
      → Sweeps
      → Q e
      → All
          (λ (d : CacheDescriptor).
            (m : ℕ) → is_expired d (some (env.time n)) (env.time m) ≡ true → Mine d.cache_id)
          (Dict.values e.descriptors)
