-- ===== src/Connectors/Transfer/Blocks.antt =====
-- Writing the blocks of one chunk, and reading them.
use llmcache.Prelude.{
  ℕ, ◌≡◌, refl, ap₂, ◌∙◌, true, false, List, [], ◌∷◌, ◌++◌, map, length, ite, ◌||◌, ℕ_discrete,
  arith,
}
use llmcache.Dict
use llmcache.Sets.{has, IsSetLike}
use llmcache.Connectors.Transfer.{Buffer, write_blocks, block}

pub has-append :
    (xs ys : List ℕ) (b : ℕ)
    → has ℕ_discrete (xs ++ ys) b ≡ (has ℕ_discrete xs b || has ℕ_discrete ys b)
unfolding has
has-append [] ys b = refl
has-append (x ∷ xs) ys b = ground (arith, has-append xs ys b)

-- Two runs of blocks that share none.
abbrev pub Apart : List ℕ → List ℕ → Type 0
Apart xs ys = (b : ℕ) → has ℕ_discrete xs b ≡ true → has ℕ_discrete ys b ≡ false

pub IsSetLike-append :
    (xs ys : List ℕ)
    → IsSetLike ℕ_discrete (xs ++ ys)
    → IsSetLike ℕ_discrete xs × IsSetLike ℕ_discrete ys × Apart xs ys
unfolding has
IsSetLike-append [] ys h = (tt, h, λ b p. absurd (ground arith))
IsSetLike-append (x ∷ xs) ys h =
    let (hx, hy, apart) = IsSetLike-append xs ys h.1 in
    let absent = has-append xs ys x in ((ground arith, hx), hy, λ b p. ground (arith, apart b))

-- What the blocks of a run hold.
abbrev pub read : Buffer → List ℕ → List (List ℕ)
read buffer bs = map (block buffer) bs

block-put :
    (buffer : Buffer) (b c : ℕ) (bytes : List ℕ)
    → block (Dict.put ℕ_discrete buffer b bytes) c ≡ ite (ℕ_discrete b c) bytes (block buffer c)
unfolding block
block-put buffer b c bytes = ground (arith, Dict.get-put ℕ_discrete buffer b c bytes)

pub write_blocks-other :
    (bs : List ℕ) (parts : List (List ℕ)) (buffer : Buffer) (c : ℕ)
    → has ℕ_discrete bs c ≡ false
    → block (write_blocks bs parts buffer) c ≡ block buffer c
unfolding write_blocks has
write_blocks-other [] parts buffer c h = refl
write_blocks-other (b ∷ bs) [] buffer c h = refl
write_blocks-other (b ∷ bs) (p ∷ parts) buffer c h =
    ground (
      arith,
      block-put buffer b c p,
      write_blocks-other bs parts (Dict.put ℕ_discrete buffer b p) c,
    )

pub write_blocks-read :
    (bs : List ℕ) (parts : List (List ℕ)) (buffer : Buffer)
    → IsSetLike ℕ_discrete bs
    → length parts ≡ length bs
    → read (write_blocks bs parts buffer) bs ≡ parts
unfolding write_blocks
write_blocks-read [] [] buffer distinct h = refl
write_blocks-read [] (p ∷ parts) buffer distinct h = absurd (omega arith)
write_blocks-read (b ∷ bs) [] buffer distinct h = absurd (omega arith)
write_blocks-read (b ∷ bs) (p ∷ parts) buffer distinct h =
    ap₂ ◌∷◌
      (write_blocks-other bs parts (Dict.put ℕ_discrete buffer b p) b distinct.0
        ∙ ground (arith, block-put buffer b b p))
      (write_blocks-read bs parts (Dict.put ℕ_discrete buffer b p) distinct.1 (omega arith))

pub read_same :
    (s t : Buffer) (bs : List ℕ)
    → ((b : ℕ) → has ℕ_discrete bs b ≡ true → block s b ≡ block t b)
    → read s bs ≡ read t bs
unfolding has
read_same s t [] h = refl
read_same s t (b ∷ bs) h =
    ap₂ ◌∷◌ (h b (ground arith)) (read_same s t bs (λ c p. h c (ground arith)))
