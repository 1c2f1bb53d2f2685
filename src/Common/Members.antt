-- ===== src/Common/Members.antt =====
-- Members of filtered lists and of appends.
use mathlib.Core.Path.{◌≡◌, refl, sym, ap, ◌∙◌}
use mathlib.Core.Logic.{◌⊎◌, inl, inr}
use mathlib.Core.Bool.{Bool, true}
use mathlib.Core.List.{List, [], ◌∷◌, ◌++◌, Memᴰ}
use native.Mathlib.Omega.{arith}
use inforsight.Common.Tests.{if◌then◌else◌, Bool-cases}
use inforsight.Common.Lists.{any}

-- [x for x in xs if test(x)]
abbrev pub filtered {ℓ} : {A : Type ℓ} → (A → Bool) → List A → List A
filtered test [] = []
filtered test (x ∷ xs) = let rest = filtered test xs in if test x then x ∷ rest else rest

pub filtered-mem :
    {A : Type 0} (test : A → Bool) (xs : List A) (x : A)
    → Memᴰ x xs
    → test x ≡ true
    → Memᴰ x (filtered test xs)
filtered-mem test [] x m t = m
filtered-mem test (y ∷ ys) x m t = elim (Bool-cases (test y)) [
  | inl b ↦
      rw b (elim m [
        | Memᴰ.head q ↦ Memᴰ.head q
        | Memᴰ.tail k ↦ Memᴰ.tail (filtered-mem test ys x k t)
      ])
  | inr b ↦ rw b (elim m [
    | Memᴰ.head q ↦ cc (sym b ∙ ap test (sym q) ∙ t)
    | Memᴰ.tail k ↦ filtered-mem test ys x k t
  ])
]

pub mem-filtered :
    {A : Type 0} (test : A → Bool) (xs : List A) (x : A) → Memᴰ x (filtered test xs) → Memᴰ x xs
mem-filtered test [] x m = m
mem-filtered test (y ∷ ys) x m = elim (Bool-cases (test y)) [
  | inl b ↦ elim (rw b at m) [
    | Memᴰ.head q ↦ Memᴰ.head q
    | Memᴰ.tail k ↦ Memᴰ.tail (mem-filtered test ys x k)
  ]
  | inr b ↦ Memᴰ.tail (mem-filtered test ys x (rw b at m))
]

pub any-mem :
    {A : Type 0} (test : A → Bool) (xs : List A) (x : A)
    → Memᴰ x xs
    → test x ≡ true
    → any test xs ≡ true
any-mem test [] x m t = elim m [ ]
any-mem test (y ∷ ys) x (Memᴰ.head q) t = rw (sym (ap test q) ∙ t) refl
any-mem test (y ∷ ys) x (Memᴰ.tail m) t = ground (arith, any-mem test ys x m t)

-- Membership in an append.
pub mem-append : {A : Type 0} (a : A) (xs ys : List A) → Memᴰ a (xs ++ ys) → Memᴰ a xs ⊎ Memᴰ a ys
mem-append a [] ys m = inr m
mem-append a (x ∷ xs) ys (Memᴰ.head q) = inl (Memᴰ.head q)
mem-append a (x ∷ xs) ys (Memᴰ.tail m) = elim (mem-append a xs ys m) [
  | inl k ↦ inl (Memᴰ.tail k)
  | inr k ↦ inr k
]

pub append-left : {A : Type 0} (a : A) (xs ys : List A) → Memᴰ a xs → Memᴰ a (xs ++ ys)
append-left a [] ys m = elim m [ ]
append-left a (x ∷ xs) ys (Memᴰ.head q) = Memᴰ.head q
append-left a (x ∷ xs) ys (Memᴰ.tail m) = Memᴰ.tail (append-left a xs ys m)

pub append-right : {A : Type 0} (a : A) (xs ys : List A) → Memᴰ a ys → Memᴰ a (xs ++ ys)
append-right a [] ys m = m
append-right a (x ∷ xs) ys m = Memᴰ.tail (append-right a xs ys m)
