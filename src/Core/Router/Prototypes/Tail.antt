-- ===== src/Core/Router/Prototypes/Tail.antt =====
-- How much of a prompt the embedding of `CosineRouter` reads (src/chen/core/router.py).
use chen.Common.{
  ℕ, zero, suc, ◌+◌, ◌*◌, ◌/◌, ◌≤◌, ◌≡◌, refl, sym, ap, ◌∙◌, max, Text, List, [], ◌∷◌, length, take,
  drop, eqb, arith, if◌then◌else◌, ◌%◌,
}
use chen.Common.Result.{Result, ok, raised}
use chen.Core.Expert.{CoreError, zero_division}
use chen.Core.Router.Prototypes.{Arrays, normalize, embed_chunks, hash_embedding}

-- A chunk depends on the bytes up to its end.
take-drop-take :
    (i k n : ℕ) (xs : List ℕ) → i + k ≤ n → take k (drop i (take n xs)) ≡ take k (drop i xs)
take-drop-take zero zero n xs h = refl
take-drop-take zero (suc k) zero xs h = absurd (omega arith)
take-drop-take zero (suc k) (suc n) [] h = refl
take-drop-take zero (suc k) (suc n) (x ∷ xs) h =
    ap (λ ys. x ∷ ys) (take-drop-take zero k n xs (omega arith))
take-drop-take (suc i) k zero xs h = absurd (omega arith)
take-drop-take (suc i) k (suc n) [] h = refl
take-drop-take (suc i) k (suc n) (x ∷ xs) h = take-drop-take i k n xs (omega arith)

module _ {F V : Type 0} (a : Arrays F V) where
  embed_chunks-take :
      (rounds dim i n : ℕ) (bytes : List ℕ) (out : V)
      → i + 8 * rounds ≤ n
      → embed_chunks a rounds dim i (take n bytes) out ≡ embed_chunks a rounds dim i bytes out
  unfolding embed_chunks
  embed_chunks-take zero dim i n bytes out h = refl
  embed_chunks-take (suc rounds) dim i n bytes out h =
      let same = take-drop-take i 8 n bytes (omega arith) in
      let next : List ℕ → V = λ ys. a.put out (i / 8 % dim) (a.fraction ys) in
      ap (λ ys. embed_chunks a rounds dim (i + 8) (take n bytes) (next ys)) same
      ∙ embed_chunks-take rounds dim (i + 8) n bytes (next (take 8 (drop i bytes))) (omega arith)

  -- Prompts of one length in code points whose UTF-8 agrees on as many bytes, and seven more, have
  -- one embedding, whatever follows: beyond ASCII the end of a prompt is not read.
  pub tail_unread :
      (dim : ℕ) (s t : Text)
      → length s ≡ length t
      → take (max (length s) 1 + 7) (a.utf8 s) ≡ take (max (length s) 1 + 7) (a.utf8 t)
      → hash_embedding a dim s ≡ hash_embedding a dim t
  unfolding hash_embedding
  tail_unread dim s t same agree =
      let n = max (length s) 1 + 7 in
      let z = a.zeros dim in
      let read = embed_chunks-take (n / 8) dim 0 n (a.utf8 s) z (omega arith) in
      let read' = embed_chunks-take (n / 8) dim 0 n (a.utf8 t) z (omega arith) in
      let rounds = ap (λ k. embed_chunks a ((max k 1 + 7) / 8) dim 0 (a.utf8 t) z) same in
      let chunks =
        sym read ∙ ap (λ bytes. embed_chunks a (n / 8) dim 0 bytes z) agree ∙ read' ∙ rounds in
      let whole : V → Result CoreError V =
        λ v. if eqb dim 0 then raised zero_division else ok (normalize a v) in
      ap whole chunks
