-- ===== src/Core/Router/Prototypes/Examples.antt =====
-- The cosine router at concrete inputs.
use chen.Common.{ℕ, ◌+◌, Text, codes, false, ◌≡◌, refl, none, List, [], ◌∷◌, length, ltb, leb}
use chen.Common.Dict.{lookup, insert}
use chen.Common.Sort.{sort}
use chen.Common.Result.{ok, raised}
use chen.Core.Expert.{backend_failed, Backend, Expert, analyst, synthesizer}
use chen.Core.Router.Scores.{count_from}
use chen.Core.Router.Prototypes.{Arrays, CosineRouter, hash_embedding, route}
use chen.Core.Router.Prototypes.Registered.{IsKept, route_again}
use chen.Core.Router.Prototypes.Tail.{tail_unread}

-- Arrays that are lists, and code points of two bytes each.
abbrev arrays : Arrays ℕ (List ℕ)
arrays = record {
  embed_fn = none;
  utf8 = doubled;
  fraction = λ bytes. length bytes;
  zeros = λ n. [];
  put = λ v i x. x ∷ v;
  norm = λ v. length v;
  is_positive = λ x. false;
  scale_down = λ v x. v;
  mean = λ vs. ok [];
  dot = λ v w. ok (length v + length w);
  more = λ x y. ltb y x;
  at_least = λ x y. leb y x;
}
  where
    doubled : Text → List ℕ
    doubled [] = []
    doubled (c ∷ text) = c ∷ c ∷ doubled text

abbrev quiet : Backend
quiet = record {
  params_m = 1;
  supports_kv_cache = false;
  generate = λ text n. ok text;
  encode = λ text. raised backend_failed;
  decode = λ c n. raised backend_failed;
  transfer_cache = λ c. raised backend_failed;
  count_tokens = none;
}

abbrev pool : List Expert
pool =
    record { name = "a"; role = analyst; backend = quiet; description = "" }
    ∷ record { name = "s"; role = synthesizer; backend = quiet; description = "sums up" }
    ∷ []

abbrev fresh : CosineRouter ℕ (List ℕ)
fresh = record {
  limits = record { min_activation = 1; max_activation = 3; force_last_role = synthesizer };
  threshold = 1;
  embed_dim = 4;
  prototypes = [];
}

abbrev known : CosineRouter ℕ (List ℕ)
known = record fresh { prototypes = ("a", []) ∷ ("s", []) ∷ [] }

twice : count_from (codes "aa") 0 (codes "aaaaa") ≡ 2
unfolding count_from
twice = refl

route_again_example :
    IsKept fresh known × (route arrays (codes "hi") pool known ≡ (ok ("a" ∷ "s" ∷ []), known))
unfolding route lookup insert sort
route_again_example = route_again arrays (codes "hi") pool fresh known ("a" ∷ "s" ∷ []) refl

tail_unread_example :
    hash_embedding arrays 4 (codes "0123456789abcdefX")
    ≡ hash_embedding arrays 4 (codes "0123456789abcdefY")
tail_unread_example =
    tail_unread arrays 4 (codes "0123456789abcdefX") (codes "0123456789abcdefY") refl refl
