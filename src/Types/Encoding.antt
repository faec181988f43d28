-- ===== src/Types/Encoding.antt =====
-- The bytes that `token_fingerprint` hashes determine the tokens.
use mathlib.Core.List.{append-nil}
use llmcache.Prelude.{
  ℕ, ◌+◌, ◌-◌, ◌*◌, ◌<◌, ◌≡◌, refl, List, [], ◌∷◌, ◌++◌, append_assoc, length, arith, sym, ap₂, ◌∙◌,
  length-append, prefix_of_append, append_left_cancel,
}
use llmcache.Int.{ℤ, pos, negsuc}
use llmcache.Results.{ok, >>=-eq-ok}
use llmcache.Types.{word_bytes, to_bytes, absorb}

word_bytes_inj : (v w : ℕ) → v < 4294967296 → w < 4294967296 → word_bytes v ≡ word_bytes w → v ≡ w
unfolding word_bytes
word_bytes_inj v w p q h = ground arith

to_bytes_inj : (s t : ℤ) {b : List ℕ} → to_bytes s ≡ ok b → to_bytes t ≡ ok b → s ≡ t
unfolding to_bytes
to_bytes_inj (pos m) (pos n) p q = ground (arith, word_bytes_inj m n)
to_bytes_inj (pos m) (negsuc n) p q = ground (arith, word_bytes_inj m (4294967295 - n))
to_bytes_inj (negsuc m) (pos n) p q = ground (arith, word_bytes_inj (4294967295 - m) n)
to_bytes_inj (negsuc m) (negsuc n) p q =
    ground (arith, word_bytes_inj (4294967295 - m) (4294967295 - n))

length-to_bytes : (t : ℤ) {b : List ℕ} → to_bytes t ≡ ok b → length b ≡ 4
unfolding to_bytes
length-to_bytes (pos n) h = ground arith
length-to_bytes (negsuc n) h = ground arith

absorb-prefix :
    (fed : List ℕ) (ts : List ℤ) {out : List ℕ}
    → absorb fed ts ≡ ok out
    → (rest : List ℕ) × (out ≡ fed ++ rest)
unfolding absorb
absorb-prefix fed [] h = ([], ground (arith, append-nil fed))
absorb-prefix fed (t ∷ ts) h =
    let (b, _, h') = >>=-eq-ok (to_bytes t) _ h in
    let (rest, e) = absorb-prefix (fed ++ b) ts h' in
    (b ++ rest, ground (arith, append_assoc fed b rest))

length-absorb :
    (fed : List ℕ) (ts : List ℤ) {out : List ℕ}
    → absorb fed ts ≡ ok out
    → length out ≡ length fed + 4 * length ts
unfolding absorb
length-absorb fed [] h = ground arith
length-absorb fed (t ∷ ts) h =
    let (b, hb, h') = >>=-eq-ok (to_bytes t) _ h in
    omega (arith, length-absorb (fed ++ b) ts h', length-append fed b, length-to_bytes t hb)

absorb_inj :
    (fed : List ℕ) (ss ts : List ℤ) {out : List ℕ}
    → absorb fed ss ≡ ok out
    → absorb fed ts ≡ ok out
    → ss ≡ ts
unfolding absorb
absorb_inj fed [] [] p q = refl
absorb_inj fed [] (t ∷ ts) p q =
    absurd (omega (arith, length-absorb fed [] p, length-absorb fed (t ∷ ts) q))
absorb_inj fed (s ∷ ss) [] p q =
    absurd (omega (arith, length-absorb fed (s ∷ ss) p, length-absorb fed [] q))
absorb_inj fed (s ∷ ss) (t ∷ ts) {out} p q =
    let (b, hb, p') = >>=-eq-ok (to_bytes s) _ p in
    let (c, hc, q') = >>=-eq-ok (to_bytes t) _ q in
    let (r, er) = absorb-prefix (fed ++ b) ss p' in
    let (u, eu) = absorb-prefix (fed ++ c) ts q' in
    let e : b ≡ c =
      same_bytes b c r u (length-to_bytes s hb) (length-to_bytes t hc) (sym er ∙ eu) in
    ap₂ ◌∷◌ (to_bytes_inj s t hb (rw e hc)) (absorb_inj (fed ++ b) ss ts p' (rw e q'))
  where
    same_bytes :
        (b c r u : List ℕ) → length b ≡ 4 → length c ≡ 4 → (fed ++ b) ++ r ≡ (fed ++ c) ++ u → b ≡ c
    same_bytes b c r u hb hc h = prefix_of_append b c r u (hb ∙ sym hc) (
        append_left_cancel fed (b ++ r) (c ++ u)
          (sym (append_assoc fed b r) ∙ h ∙ append_assoc fed c u))

-- Two runs of tokens that feed the hash the same bytes are the same run.
pub fed_inj :
    (ss ts : List ℤ) {out : List ℕ} → absorb [] ss ≡ ok out → absorb [] ts ≡ ok out → ss ≡ ts
fed_inj = absorb_inj []
