-- ===== src/Store/Cpu/Eviction.antt =====
-- The loop of `_ensure_room` against a specification without a state: what is spilled is the
-- oldest of what is not pinned, no more than is needed.
use llmcache.Prelude.{
  ℕ, ◌+◌, ◌≡◌, ◌≢◌, refl, Bool, true, false, none, some, inl, inr, List, [], ◌∷◌, ◌++◌, arith,
  Bool-cases, ltb, leb, sym, ap, ◌∙◌, if◌then◌else◌, append_assoc,
}
use llmcache.Results.{Result, ok, err, storage_full}
use llmcache.Exec.{Exec, continue}
use llmcache.Types.{ChunkKey}
use llmcache.Payload.{KvPayload}
use llmcache.Dict
use llmcache.Dict.{Dict}
use llmcache.Sets
use llmcache.Store.Cpu.{Cpu, evict, notify, evict_loop}
use llmcache.Store.Cpu.Loop.{loop_stop, loop_skip, loop-evict}
use llmcache.Store.Cpu.Bytes.{dec, total, total-append, total_one, total_cons}
use llmcache.Store.Cpu.Spill.{spill}

module _ {C : Type 0} (callback : ChunkKey → KvPayload → Exec C (Unit {0})) where
  -- The callback over what is spilled, in order.
  unfoldable pub notify_all : Dict ChunkKey KvPayload → C → C
  notify_all [] c = c
  notify_all ((k, v) ∷ d) c = notify_all d (callback k v c).1

  -- The callback returns, whatever it is given.
  abbrev pub IsQuiet : Type 0
  IsQuiet = (k : ChunkKey) (v : KvPayload) (c : C) → (callback k v c).0 ≡ ok tt

  module _ (quiet : IsQuiet) (capacity incoming : ℕ) (protect : ChunkKey) where
    abbrev run_loop : List ChunkKey → Exec (Cpu × C) (Unit {0})
    run_loop = evict_loop (some callback) capacity incoming protect

    abbrev left : Cpu → Dict ChunkKey KvPayload → Dict ChunkKey KvPayload → Cpu
    left s front kept = record s { entries = front ++ kept; used = total front + total kept }

    abbrev verdict : ℕ → Result (Unit {0})
    verdict used = if ltb capacity (used + incoming) then err storage_full else ok tt

    abbrev outcome :
        Cpu
        → C
        → Dict ChunkKey KvPayload
        → Dict ChunkKey KvPayload × Dict ChunkKey KvPayload
        → Result (Unit {0}) × (Cpu × C)
    outcome s c front (kept, out) =
        (verdict (total front + total kept), (left s front kept, notify_all out c))

    pub record IsAt (s : Cpu) (front rest : Dict ChunkKey KvPayload) : Type 0 where
      pub entries : s.entries ≡ front ++ rest
      pub distinct : Dict.Distinct dec (front ++ rest)
      pub counted : s.used ≡ total front + total rest
      pub absent : Dict.get dec (front ++ rest) protect ≡ none

    abbrev pub Spilled : Cpu → C → Dict ChunkKey KvPayload → Dict ChunkKey KvPayload → Type 0
    Spilled s c front rest =
        run_loop (Dict.keys rest) (s, c)
        ≡ outcome s c front (spill capacity incoming s.pinned (total front) rest)

    -- Nothing more is spilled: the state is as it was.
    rest_stays :
        (s : Cpu) (front rest : Dict ChunkKey KvPayload) → IsAt s front rest → left s front rest ≡ s
    rest_stays s front rest h = ground (arith, h.entries, h.counted)

    spill_nil :
        (s : Cpu) (c : C) (front : Dict ChunkKey KvPayload) → IsAt s front [] → Spilled s c front []
    unfolding evict_loop spill notify_all total
    spill_nil s c front h = ground (arith, rest_stays s front [] h, h.counted)

    module _ (s : Cpu) (c : C) (front : Dict ChunkKey KvPayload) (k : ChunkKey) (v : KvPayload)
        (rest : Dict ChunkKey KvPayload) (h : IsAt s front ((k, v) ∷ rest)) where
      not_protected : k ≢ protect
      not_protected e = ground (arith, h.absent, Dict.get_middle dec front rest k v h.distinct)

      pass-IsAt : IsAt s (front ++ (k, v) ∷ []) rest
      unfolding total
      pass-IsAt = record {
        entries = h.entries ∙ sym (append_assoc front ((k, v) ∷ []) rest);
        distinct = rw (append_assoc front ((k, v) ∷ []) rest) h.distinct;
        counted = omega (arith, h.counted, total-append front ((k, v) ∷ []));
        absent = rw (append_assoc front ((k, v) ∷ []) rest) h.absent;
      }

      out-IsAt : IsAt (evict k v s) front rest
      unfolding evict total
      out-IsAt = record {
        entries = ground (arith, h.entries, Dict.remove_middle dec front rest k v h.distinct);
        distinct = (Dict.middle_absent dec front rest k v h.distinct).2;
        counted = omega (arith, h.counted);
        absent = Dict.absent_of_middle dec front rest k protect v h.absent;
      }

      fits_now : Bool
      fits_now = leb (s.used + incoming) capacity

      abbrev cut_here : Dict ChunkKey KvPayload × Dict ChunkKey KvPayload
      cut_here = spill capacity incoming s.pinned (total front) ((k, v) ∷ rest)

      spill_stop : fits_now ≡ true → Spilled s c front ((k, v) ∷ rest)
      unfolding fits_now
      spill_stop stop =
          loop_stop (some callback) capacity incoming protect s c k (Dict.keys rest) stop
          ∙ stays
          ∙ ap (outcome s c front) (sym split)
        where
          split : cut_here ≡ ((k, v) ∷ rest, [])
          split = unfold spill in ground (arith, h.counted, total_cons k v rest)

          stays :
              ◌≡◌ {A = Result (Unit {0}) × (Cpu × C)}
                (ok tt, (s, c))
                (outcome s c front ((k, v) ∷ rest, []))
          stays =
              unfold notify_all in
              ground (arith, h.counted, rest_stays s front ((k, v) ∷ rest) h, total_cons k v rest)

      spill_pass :
          fits_now ≡ false
          → Sets.has dec s.pinned k ≡ true
          → Spilled s c (front ++ (k, v) ∷ []) rest
          → Spilled s c front ((k, v) ∷ rest)
      unfolding fits_now
      spill_pass full p ih =
          loop_skip (some callback) capacity incoming protect s c k (Dict.keys rest) full
            not_protected p
          ∙ ih
          ∙ moved (spill capacity incoming s.pinned (total (front ++ (k, v) ∷ [])) rest)
          ∙ ap (outcome s c front) (sym split)
        where
          moved :
              (r : Dict ChunkKey KvPayload × Dict ChunkKey KvPayload)
              → outcome s c (front ++ (k, v) ∷ []) r ≡ outcome s c front ((k, v) ∷ r.0, r.1)
          moved (kept, out) = ground (
            arith,
            append_assoc front ((k, v) ∷ []) kept,
            total-append front ((k, v) ∷ []),
            total_one k v,
            total_cons k v kept,
          )

          split : cut_here ≡ (
            (k, v) ∷ (spill capacity incoming s.pinned (total (front ++ (k, v) ∷ [])) rest).0,
            (spill capacity incoming s.pinned (total (front ++ (k, v) ∷ [])) rest).1,
          )
          split =
              unfold spill in
              ground (
                arith,
                h.counted,
                total_cons k v rest,
                total-append front ((k, v) ∷ []),
                total_one k v,
              )

      spill_out :
          fits_now ≡ false
          → Sets.has dec s.pinned k ≡ false
          → Spilled (evict k v s) (callback k v c).1 front rest
          → Spilled s c front ((k, v) ∷ rest)
      unfolding fits_now
      spill_out full n ih =
          loop-evict (some callback) capacity incoming protect s c k (Dict.keys rest) full
            not_protected v n (rw h.entries (Dict.get_middle dec front rest k v h.distinct))
          ∙ unfold notify in
            ap (λ r. continue r (λ _. run_loop (Dict.keys rest)) (evict k v s, (callback k v c).1))
              (quiet k v c)
            ∙ ih
            ∙ moved
            ∙ ap (outcome s c front) (sym split)
        where
          after : Dict ChunkKey KvPayload × Dict ChunkKey KvPayload
          after = spill capacity incoming s.pinned (total front) rest

          moved :
              outcome
                (evict k v s)
                (callback k v c).1
                front
                (spill capacity incoming (evict k v s).pinned (total front) rest)
              ≡ outcome s c front (after.0, (k, v) ∷ after.1)
          moved = unfold evict notify_all in refl

          split : cut_here ≡ (after.0, (k, v) ∷ after.1)
          split = unfold spill in ground (arith, h.counted, total_cons k v rest)

    -- Where the callback never raises, the loop leaves what the specification keeps, has called
    -- the callback on what it spills, oldest first, and returns exactly if the object fits.
    pub loop-spill :
        (rest front : Dict ChunkKey KvPayload) (s : Cpu) (c : C)
        → IsAt s front rest
        → Spilled s c front rest
    loop-spill [] front s c h = spill_nil s c front h
    loop-spill ((k, v) ∷ rest) front s c h = elim (Bool-cases (leb (s.used + incoming) capacity)) [
      | inl stop ↦ spill_stop s c front k v rest h (unfold fits_now in stop)
      | inr full ↦ elim (Bool-cases (Sets.has dec s.pinned k)) [
        | inl p ↦
            spill_pass s c front k v rest h (unfold fits_now in full) p
              (loop-spill rest (front ++ (k, v) ∷ []) s c (pass-IsAt s c front k v rest h))
        | inr n ↦
            spill_out s c front k v rest h (unfold fits_now in full) n (
              loop-spill rest front (evict k v s) (callback k v c).1
                (out-IsAt s c front k v rest h))
      ]
    ]
