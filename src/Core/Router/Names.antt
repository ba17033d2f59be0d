-- ===== src/Core/Router/Names.antt =====
-- Lists of names, and the names of the experts of the last role (src/chen/core/router.py).
use chen.Common.{
  ==-self, ℕ, zero, suc, String, Bool, true, false, not, ◌&&◌, ◌≡◌, ◌≢◌, refl, sym, ap, ◌∙◌, ◌⊎◌,
  inl, inr, none, some, List, [], ◌∷◌, ◌++◌, arith, ltb, length, take, keep, any, find, last?, ◌==◌,
  text_key, Bool-cases, Option-cases,
}
use chen.Core.Expert.{
  ExpertRole, analyst, reasoner, synthesizer, coder, router, translator, generalist, Expert,
}
use chen.Core.Router.{
  Limits, has_role, contains, names_of, last_role_names, expert_role_name, move_last, cap, value,
}

pub last?-append {ℓ} : {A : Type ℓ} (xs : List A) (y : A) → last? (xs ++ y ∷ []) ≡ some y
last?-append [] y = refl
last?-append (x ∷ []) y = refl
last?-append (x ∷ z ∷ xs) y = last?-append (z ∷ xs) y

pub last?-cons {ℓ} :
    {A : Type ℓ} (x : A) (zs : List A) (y : A)
    → last? (x ∷ zs) ≡ some y
    → (x ≡ y) ⊎ (last? zs ≡ some y)
last?-cons x [] y h = inl (ground arith)
last?-cons x (z ∷ zs) y h = inr h

pub last?-filled {ℓ} : {A : Type ℓ} (x : A) (zs : List A) → (y : A) × (last? (x ∷ zs) ≡ some y)
last?-filled x [] = (x, refl)
last?-filled x (z ∷ zs) = last?-filled z zs

pub last?-keep {ℓ} :
    {A : Type ℓ} (p : A → Bool) (xs : List A) (y : A) → last? (keep p xs) ≡ some y → p y ≡ true
last?-keep p [] y h = absurd (cc)
last?-keep p (x ∷ xs) y h = elim (Bool-cases (p x)) [
  | inl here ↦ elim (last?-cons x (keep p xs) y (ground arith)) [
    | inl same ↦ ap p (sym same) ∙ here
    | inr later ↦ last?-keep p xs y later
  ]
  | inr there ↦ last?-keep p xs y (ground arith)
]

pub last?-none {ℓ} :
    {A : Type ℓ} (p : A → Bool) (xs : List A) → last? (keep p xs) ≡ none → any p xs ≡ false
last?-none p [] h = refl
last?-none p (x ∷ xs) h =
    let filled = last?-filled x (keep p xs) in ground (arith, last?-none p xs, filled.1)

pub keep_every {ℓ} :
    {A : Type ℓ} (p : A → Bool) (xs : List A) (y : A)
    → any p xs ≡ false
    → keep p (xs ++ y ∷ []) ≡ keep p (y ∷ [])
keep_every p [] y h = refl
keep_every p (x ∷ xs) y h = ground (arith, keep_every p xs y)

-- A name of an expert with the last role.
abbrev pub IsLast : Limits → List Expert → String → Type 0
IsLast r es n = contains n (last_role_names r es) ≡ true

unfoldable pub EndsWithLast : Limits → List Expert → List String → Type 0
EndsWithLast r es names = (n : String) × (last? names ≡ some n) × IsLast r es n

pub move_last_lem :
    (r : Limits) (es : List Expert) (names : List String)
    → any (λ n. contains n (last_role_names r es)) names ≡ true
    → EndsWithLast r es (move_last (last_role_names r es) names)
unfolding move_last EndsWithLast
move_last_lem r es names h =
    elim (Option-cases (last? (keep (λ n. contains n (last_role_names r es)) names))) [
      | inl missing ↦
          absurd (ground (arith, last?-none (λ n. contains n (last_role_names r es)) names missing))
      | inr (n, found) ↦ (
        n,
        ground (arith, found, last?-append (keep (λ m. not (m == n)) names) n),
        last?-keep (λ n. contains n (last_role_names r es)) names n found,
      )
    ]

pub take_short {ℓ} :
    {A : Type ℓ} (n : ℕ) (xs : List A) → ltb (length (take n xs)) n ≡ true → take n xs ≡ xs
take_short zero xs h = absurd (ground arith)
take_short (suc n) [] h = refl
take_short (suc n) (x ∷ xs) h = ground (arith, take_short n xs)

pub cap_short :
    (max : ℕ) (names : List String)
    → ltb (length (cap max names)) max ≡ true
    → cap max names ≡ names
unfolding cap
cap_short max names h = ground (arith, take_short max names)

pub find-none {ℓ} : {A : Type ℓ} (p : A → Bool) (xs : List A) → find p xs ≡ none → any p xs ≡ false
find-none p [] h = refl
find-none p (x ∷ xs) h = ground (arith, find-none p xs)

pub find-some {ℓ} :
    {A : Type ℓ} (p : A → Bool) (xs : List A) (y : A)
    → find p xs ≡ some y
    → (p y ≡ true) × ((q : A → Bool) → q y ≡ true → any q xs ≡ true)
find-some p [] y h = absurd (cc)
find-some p (x ∷ xs) y h = elim (Bool-cases (p x)) [
  | inl here ↦
      let same : x ≡ y = ground arith in (ap p (sym same) ∙ here, λ q t. ground (arith, ap q same))
  | inr there ↦
      let rest = find-some p xs y (ground arith) in (rest.0, λ q t. ground (arith, rest.1 q t))
]

-- An expert with the role has one of the role's names.
pub role-IsLast :
    (r : Limits) (es : List Expert) (e : Expert)
    → has_role r.force_last_role e ≡ true
    → any (λ (f : Expert). (f.name == e.name) && has_role r.force_last_role f) es ≡ true
    → IsLast r es e.name
unfolding contains last_role_names names_of
role-IsLast r [] e h t = absurd (cc)
role-IsLast r (f ∷ es) e h t = ground (arith, role-IsLast r es e h)

pub any_member :
    (q : String → Bool) (x : String) (names : List String)
    → contains x names ≡ true
    → q x ≡ true
    → any q names ≡ true
unfolding contains
any_member q x [] h t = absurd (cc)
any_member q x (n ∷ names) h t = elim (Bool-cases (n == x)) [
  | inl here ↦ ground (arith, ap q ((text_key.same_iff n x).0 here))
  | inr there ↦ ground (arith, any_member q x names)
]

pub any_mono {ℓ} :
    {A : Type ℓ} (p q : A → Bool) (xs : List A)
    → ((x : A) → p x ≡ true → q x ≡ true)
    → any p xs ≡ true
    → any q xs ≡ true
any_mono p q [] i h = absurd (cc)
any_mono p q (x ∷ xs) i h = ground (arith, i x, any_mono p q xs i)

pub unnamed : (role : ExpertRole) → ("" == value role) ≢ true
unfolding value
unnamed analyst h = absurd (cc)
unnamed reasoner h = absurd (cc)
unnamed synthesizer h = absurd (cc)
unnamed coder h = absurd (cc)
unnamed router h = absurd (cc)
unnamed translator h = absurd (cc)
unnamed generalist h = absurd (cc)

-- The role of a name that is looked up is the role of an expert.
pub looked_up :
    (r : Limits) (es : List Expert) (n : String)
    → (expert_role_name n es == value r.force_last_role) ≡ true
    → IsLast r es n
unfolding expert_role_name last_role_names names_of contains has_role
looked_up r [] n h = absurd (unnamed r.force_last_role h)
looked_up r (e ∷ es) n h = ground (arith, looked_up r es n)

pub found_IsLast :
    (r : Limits) (es : List Expert) (p : Expert → Bool) (e : Expert)
    → find p es ≡ some e
    → has_role r.force_last_role e ≡ true
    → IsLast r es e.name
found_IsLast r es p e found h = role-IsLast r es e h (
    (find-some p es e found).1 (λ (f : Expert). (f.name == e.name) && has_role r.force_last_role f)
      (ground (arith, ==-self e.name)))
