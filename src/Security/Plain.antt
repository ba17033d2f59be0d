-- ===== src/Security/Plain.antt =====
-- Primitives at which src/chen/security can be run: a cipher that appends a tag and hides nothing.
use chen.Common.{
  ℕ, ◌-◌, ◌≡◌, refl, some, List, [], ◌∷◌, ◌++◌, arith, length, length-append, take, take-append_of,
}
use chen.Security.{Primitives}

abbrev pub tag : List ℕ
tag = 0 ∷ 0 ∷ 0 ∷ 0 ∷ 0 ∷ 0 ∷ 0 ∷ 0 ∷ 0 ∷ 0 ∷ 0 ∷ 0 ∷ 0 ∷ 0 ∷ 0 ∷ 0 ∷ []

pub tag-append : (text : List ℕ) → take (length (text ++ tag) - 16) (text ++ tag) ≡ text
tag-append text =
    take-append_of (length (text ++ tag) - 16) text tag (omega (arith, length-append text tag))

abbrev pub plain : Primitives
plain = record {
  hkdf = λ salt key. salt ++ key;
  seal = λ key nonce text. text ++ tag;
  unseal = λ key nonce sealed. some (take (length sealed - 16) sealed);
  encode = λ s. s;
  decode = λ s. some s;
  b64encode = λ s. s;
  b64decode = λ s. some s;
  unseal-seal = λ key nonce text i. some (tag-append text i);
  length-seal = λ key nonce text. length-append text tag;
  decode-encode = λ s. refl;
  b64decode-b64encode = λ s. refl;
}
