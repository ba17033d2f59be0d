-- ===== src/Core/Router/Prototypes.antt =====
-- The prototypes of `CosineRouter` in src/chen/core/router.py, which its calls register. numpy's arrays
-- are the type `V` with the operations of `Arrays`; UTF-8 and BLAKE2b are fields of it too.
pub mod Registered
pub mod Tail
mod Examples
use chen.Common.{
  ℕ, zero, suc, ◌+◌, ◌*◌, ◌/◌, ◌%◌, max, Text, String, codes, Bool, true, false, Option, none, some,
  List, [], ◌∷◌, ◌++◌, eqb, ltb, length, take, drop, if◌then◌else◌, ◌==◌, text_key, codes_key,
}
use chen.Common.Dict.{Dict, lookup, insert}
use chen.Common.Result.{Result, ok, raised, ◌>>=◌}
use chen.Core.Expert.{CoreError, key_error, zero_division, Expert}
use chen.Core.Router.{Limits, value, route_scored}

-- `fraction bytes` is the number of a chunk's digest over `0xFFFFFFFF`; `mean` is that of the stacked
-- arrays, and `scale_down v x` is `v / x`. `embed_fn` is the callable, where one is given.
pub record Arrays (F V : Type 0) : Type 0 where
  pub embed_fn : Option (Text → Result CoreError V)
  pub utf8 : Text → List ℕ
  pub fraction : List ℕ → F
  pub zeros : ℕ → V
  pub put : V → ℕ → F → V
  pub norm : V → F
  pub is_positive : F → Bool
  pub scale_down : V → F → V
  pub mean : List V → Result CoreError V
  pub dot : V → V → Result CoreError F
  pub more : F → F → Bool
  pub at_least : F → F → Bool

pub record CosineRouter (F V : Type 0) : Type 0 where
  pub limits : Limits
  pub threshold : F
  pub embed_dim : ℕ
  pub prototypes : Dict String V

module _ {F V : Type 0} (a : Arrays F V) where
  -- The L2 normalization
  unfoldable pub normalize : V → V
  normalize v = if a.is_positive (a.norm v) then a.scale_down v (a.norm v) else v

  -- The rounds of the loop over chunks from offset `i` on
  unfoldable pub embed_chunks : ℕ → ℕ → ℕ → List ℕ → V → V
  embed_chunks zero dim i bytes out = out
  embed_chunks (suc rounds) dim i bytes out =
      embed_chunks rounds dim (i + 8) bytes
        (a.put out (i / 8 % dim) (a.fraction (take 8 (drop i bytes))))

  -- The embedding without a callable: a round for every eight code points.
  unfoldable pub hash_embedding : ℕ → Text → Result CoreError V
  unfolding embed_chunks normalize
  hash_embedding dim text =
      if eqb dim 0
      then raised zero_division
      else ok (
          normalize
            (embed_chunks ((max (length text) 1 + 7) / 8) dim 0 (a.utf8 text) (a.zeros dim)))

  -- `_embed`
  unfoldable pub embed : ℕ → Text → Result CoreError V
  unfolding hash_embedding
  embed dim text = elim a.embed_fn [ none ↦ hash_embedding dim text | some fn ↦ fn text ]

  unfoldable pub embed_all : ℕ → List Text → Result CoreError (List V)
  unfolding embed
  embed_all dim [] = ok []
  embed_all dim (t ∷ ts) = do v ← embed dim t; vs ← embed_all dim ts; ok (v ∷ vs)

  -- `register_expert`
  unfoldable pub register_expert :
      Expert → List Text → CosineRouter F V → Result CoreError (Unit {0}) × CosineRouter F V
  unfolding embed_all normalize
  register_expert e [] r = (ok tt, r)
  register_expert e (t ∷ ts) r = elim (embed_all r.embed_dim (t ∷ ts) >>= a.mean) [
    | raised x ↦ (raised x, r)
    | ok proto ↦ (ok tt, record r { prototypes = insert e.name (normalize proto) r.prototypes })
  ]

  -- The role and the description, or the role twice, as the samples of an expert without any.
  unfoldable pub default_samples : Expert → List Text
  unfolding value
  default_samples e =
      let role = codes (value e.role) in
      role ∷ (if e.description == "" then role else codes e.description) ∷ []

  -- `sample_prompts.get(name) or ...`
  unfoldable pub samples_for : Dict String (List Text) → Expert → List Text
  unfolding default_samples
  samples_for given e = elim (lookup e.name given) [
    | none ↦ default_samples e
    | some ts ↦ elim ts [ [] ↦ default_samples e | t ∷ ts ↦ t ∷ ts ]
  ]

  -- `from_experts` on a router that has been made
  unfoldable pub from_experts :
      Dict String (List Text) → List Expert → CosineRouter F V → Result CoreError (CosineRouter F V)
  unfolding register_expert samples_for
  from_experts given [] r = ok r
  from_experts given (e ∷ es) r =
      let done = register_expert e (samples_for given e) r in
      elim done.0 [ raised x ↦ raised x | ok u ↦ from_experts given es done.1 ]

  -- The prototype of an expert, registered on the fly where there is none.
  unfoldable pub prototype_of : Expert → CosineRouter F V → Result CoreError V × CosineRouter F V
  unfolding register_expert default_samples
  prototype_of e r = elim (lookup e.name r.prototypes) [
    | some v ↦ (ok v, r)
    | none ↦
        let done = register_expert e (default_samples e) r in
        elim done.0 [
          | raised x ↦ (raised x, done.1)
          | ok u ↦ elim (lookup e.name done.1.prototypes) [
            | none ↦ (raised key_error, done.1)
            | some v ↦ (ok v, done.1)
          ]
        ]
  ]

  -- The loop over the experts
  unfoldable pub score_experts :
      V → List Expert → CosineRouter F V → Result CoreError (List (F × Expert)) × CosineRouter F V
  unfolding prototype_of
  score_experts q [] r = (ok [], r)
  score_experts q (e ∷ es) r =
      let found = prototype_of e r in
      elim (found.0 >>= a.dot q) [
        | raised x ↦ (raised x, found.1)
        | ok sim ↦
            let rest = score_experts q es found.1 in
            (rest.0 >>= (λ scored. ok ((sim, e) ∷ scored)), rest.1)
      ]

  -- `route` of a prompt with its embedding
  route_embedded :
      V → List Expert → CosineRouter F V → Result CoreError (List String) × CosineRouter F V
  unfolding score_experts route_scored
  route_embedded q es r =
      let run = score_experts q es r in
      (
        run.0 >>= (λ scored.
            ok (route_scored a.more r.limits (λ s. a.at_least s r.threshold) scored es)),
        run.1,
      )

  -- `route`
  unfoldable pub route :
      Text → List Expert → CosineRouter F V → Result CoreError (List String) × CosineRouter F V
  unfolding route_embedded embed
  route prompt [] r = (ok [], r)
  route prompt (e ∷ es) r = elim (embed r.embed_dim prompt) [
    | raised x ↦ (raised x, r)
    | ok q ↦ route_embedded q (e ∷ es) r
  ]
