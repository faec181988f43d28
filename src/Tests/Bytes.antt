-- ===== src/Tests/Bytes.antt =====
-- Examples for the framing of payloads and the stores of bytes.
use llmcache.Prelude.{
  ℕ, ◌+◌, ◌<◌, ◌≤◌, ◌≡◌, ◌≢◌, refl, ap, String, Bool, true, false, Option, none, some, List, [],
  ◌∷◌, length, if_pos, if_neg, String_discrete, ℕ_discrete, ne_of_false, arith, sym, ◌∙◌,
}
use llmcache.Results.{ok, err, overflow_error}
use llmcache.Dict
use llmcache.Dict.{Dict}
use llmcache.Sets
use llmcache.Types.{ChunkKey, ChunkKey_discrete}
use llmcache.Payload.{KvPayload, nbytes}
use llmcache.Payload.Framing.{header_bytes, pack_payload, unpack_payload, as_unpacked}
use llmcache.Payload.Framing.RoundTrip.{unpack-pack}
use llmcache.Store.Contract.{KeepsPinned, KeepsPinnedOf}
use llmcache.Store.Cpu.History.{Call}
use llmcache.Store.Disk
use llmcache.Store.Disk.{Disk}
use llmcache.Store.Disk.Promises.{get-put_object, backend-KeepsPinnedOf}
use llmcache.Store.Disk.Names.{Named}
use llmcache.Text.{chars, decimal, Char_discrete}
use llmcache.Store.Disk.Listing.{run, keys-contains}
use llmcache.Store.Remote
use llmcache.Store.Remote.{RedisClient, Redis, parse, name_of}
use llmcache.Store.Remote.Names.{parse-name_of}
use llmcache.Store.Remote.Promises.{Persistence, redis-KeepsPinned}
use llmcache.Tests.Codec.{postfix}
use llmcache.Tests.Data.{payload_of, key_of}

abbrev object : KvPayload
object = payload_of (7 ∷ 8 ∷ [])

unpack-pack_example :
    (length (header_bytes postfix object) < 4294967296
      → (blob : List ℕ) × (pack_payload postfix object ≡ ok blob)
        × (length blob ≡ 10 + length (header_bytes postfix object) + nbytes object)
        × (unpack_payload postfix blob ≡ ok (as_unpacked object)))
    × (4294967296 ≤ length (header_bytes postfix object)
        → pack_payload postfix object ≡ err overflow_error)
unpack-pack_example = unpack-pack postfix object

abbrev empty_disk : Disk
empty_disk = record { root = "tmp" ∷ []; capacity_bytes = none; files = []; pinned = [] }

key_of-Named : (idx : ℕ) → length (decimal idx) ≤ 120 → Named (key_of "c" idx)
unfolding chars Sets.has Char_discrete ℕ_discrete decimal llmcache.Text.emit llmcache.Text.digit
key_of-Named idx short = record {
  nonempty = ne_of_false "c" "" refl;
  not_here = ne_of_false "c" "." refl;
  not_up = ne_of_false "c" ".." refl;
  no_slash = refl;
  no_nul = refl;
  short = omega arith;
  worker_short = omega arith;
  chunk_short = short;
}

first-Named : Named (key_of "c" 0)
unfolding decimal llmcache.Text.emit llmcache.Text.digit
first-Named = key_of-Named 0 (omega arith)

other-Named : Named (key_of "c" 12)
unfolding decimal llmcache.Text.emit llmcache.Text.digit
other-Named = key_of-Named 12 (omega arith)

get-put_object_example :
    (length (header_bytes postfix object) < 4294967296
      → ((Disk.put postfix (key_of "c" 0) object true empty_disk).0 ≡ ok tt)
        × ((Disk.get postfix
              (key_of "c" 0)
              (Disk.put postfix (key_of "c" 0) object true empty_disk).1).0
            ≡ ok (some object))
        × ((j : ChunkKey)
            → Named j
            → j ≢ key_of "c" 0
            → (Disk.get postfix j (Disk.put postfix (key_of "c" 0) object true empty_disk).1).0
              ≡ (Disk.get postfix j empty_disk).0))
    × (4294967296 ≤ length (header_bytes postfix object)
        → ((Disk.put postfix (key_of "c" 0) object true empty_disk).0 ≡ err overflow_error)
          × ((j : ChunkKey)
              → (Disk.get postfix j (Disk.put postfix (key_of "c" 0) object true empty_disk).1).0
                ≡ (Disk.get postfix j empty_disk).0))
get-put_object_example = get-put_object postfix (key_of "c" 0) object true empty_disk first-Named

backend-KeepsPinnedOf_example : KeepsPinnedOf Named (Disk.backend postfix)
backend-KeepsPinnedOf_example = backend-KeepsPinnedOf postfix

abbrev calls : List Call
calls =
    Call.put (key_of "c" 0) object true
    ∷ Call.put (key_of "c" 12) object false
    ∷ Call.remove (key_of "c" 0)
    ∷ []

keys-contains_example :
    (ks : List ChunkKey) × ((Disk.keys postfix
        (run postfix (Disk.init ("tmp" ∷ []) [] none) calls)).0
      ≡ ok ks)
    × ((Disk.contains postfix
          (key_of "c" 12)
          (run postfix (Disk.init ("tmp" ∷ []) [] none) calls)).0
        ≡ ok (Sets.has ChunkKey_discrete ks (key_of "c" 12)))
keys-contains_example =
    keys-contains postfix ("tmp" ∷ []) none calls (key_of "c" 12)
      (first-Named, (other-Named, (first-Named, tt))) other-Named

parse-name_of_example :
    ((k : ChunkKey) → parse "llm:cache" (name_of "llm:cache" k) ≡ some k)
    × ((k j : ChunkKey) → name_of "llm:cache" k ≡ name_of "llm:cache" j → k ≡ j)
parse-name_of_example = parse-name_of "llm:cache"

-- A server: each value with whether it stays.
abbrev Server : Type 0
Server = Dict String (List ℕ × Bool)

abbrev is_kept : Option ℕ → Bool
is_kept none = true
is_kept (some ex) = false

abbrev value_of : Option (List ℕ × Bool) → Option (List ℕ)
value_of none = none
value_of (some (value, kept)) = some value

abbrev kept_of : Option (List ℕ × Bool) → Option (List ℕ)
kept_of (some (value, true)) = some value
kept_of (some (value, false)) = none
kept_of none = none

abbrev mark : Bool → String → Option (List ℕ × Bool) → Server → Server
mark b name none r = r
mark b name (some (value, kept)) r = Dict.put String_discrete r name (value, b)

abbrev count_of : Option (List ℕ × Bool) → ℕ
count_of none = 0
count_of (some found) = 1

abbrev find : Server → String → Option (List ℕ × Bool)
find = Dict.get String_discrete

abbrev client : RedisClient Server
client = record {
  set = λ name value ex r. (ok tt, Dict.put String_discrete r name (value, is_kept ex));
  get = λ name r. (ok (value_of (find r name)), r);
  delete = λ name r. (ok (count_of (find r name)), Dict.remove String_discrete r name);
  exists = λ name r. (ok (count_of (find r name)), r);
  scan_iter = λ pattern r. (ok (Dict.keys r), r);
  persist = λ name r. (ok tt, mark true name (find r name) r);
  expire = λ name ttl r. (ok tt, mark false name (find r name) r);
}

find_self :
    (r : Server) (name : String) (v : List ℕ × Bool)
    → find (Dict.put String_discrete r name v) name ≡ some v
find_self r name v =
    Dict.get-put String_discrete r name name v
    ∙ if_pos (String_discrete name name) refl (some v) (find r name)

find_other :
    (r : Server) (name other : String) (v : List ℕ × Bool)
    → other ≢ name
    → find (Dict.put String_discrete r name v) other ≡ find r other
find_other r name other v ne =
    Dict.get-put String_discrete r name other v
    ∙ if_neg (String_discrete name other) (λ e. ne (sym e)) (some v) (find r other)

mark_other :
    (b : Bool) (name : String) (o : Option (List ℕ × Bool)) (r : Server) (other : String)
    → other ≢ name
    → find (mark b name o r) other ≡ find r other
mark_other b name none r other ne = refl
mark_other b name (some (value, kept)) r other ne = find_other r name other (value, b) ne

kept_marked :
    (value' value : List ℕ) (kept : Bool)
    → kept_of (some (value', kept)) ≡ some value
    → kept_of (some (value', true)) ≡ some value
kept_marked value' value true h = h
kept_marked value' value false h = absurd (ground arith)

mark_kept :
    (name : String) (o : Option (List ℕ × Bool)) (r : Server) (other : String) (value : List ℕ)
    → find r name ≡ o
    → kept_of (find r other) ≡ some value
    → kept_of (find (mark true name o r) other) ≡ some value
mark_kept name none r other value found h = h
mark_kept name (some (value', kept)) r other value found h = elim (String_discrete other name) [
  | no ne ↦ ap kept_of (find_other r name other (value', true) ne) ∙ h
  | yes same ↦
      ap (λ n. kept_of (find (mark true name (some (value', kept)) r) n)) same
      ∙ ap kept_of (find_self r name (value', true))
      ∙ kept_marked value' value kept
          (ap kept_of (sym found) ∙ ap (λ n. kept_of (find r n)) (sym same) ∙ h)
]

value_of_kept :
    (o : Option (List ℕ × Bool)) (value : List ℕ) → kept_of o ≡ some value → value_of o ≡ some value
value_of_kept none value h = absurd (ground arith)
value_of_kept (some (v, true)) value h = h
value_of_kept (some (v, false)) value h = absurd (ground arith)

client-Persistence : Persistence client
client-Persistence = record {
  kept = λ r name. kept_of (find r name);
  set_kept = λ name value r h. ap kept_of (find_self r name (value, true));
  set_others =
      λ name value ex r other ne. ap kept_of (find_other r name other (value, is_kept ex) ne);
  get_kept = λ name value r h. ap ok (value_of_kept (find r name) value h);
  get_others = λ name r other. refl;
  delete_others = λ name r other ne. ap kept_of (
      Dict.get-remove String_discrete r name other
      ∙ if_neg (String_discrete name other) (λ e. ne (sym e)) none (find r other));
  persist_others = λ name r other value h. mark_kept name (find r name) r other value refl h;
  expire_others =
      λ name ttl r other ne. ap kept_of (mark_other false name (find r name) r other ne);
}

abbrev redis : Redis Server
redis = record { client = client; namespace = "llmcache"; key_ttl = some 60 }

redis-KeepsPinned_example : KeepsPinned (Remote.backend postfix redis)
redis-KeepsPinned_example = redis-KeepsPinned postfix redis client-Persistence
