-- ===== src/Common/Strict.antt =====
-- Sorted lists of items with distinct keys: their members determine them.
use mathlib.Core.Path.{◌≡◌, refl, sym, ◌∙◌, subst}
use mathlib.Core.Logic.{inl, inr}
use mathlib.Core.Bool.{Bool, true, false, ◌&&◌}
use mathlib.Core.List.{List, [], ◌∷◌, Memᴰ}
use native.Mathlib.Omega.{arith}
use inforsight.Common.Tests.{Bool-cases}
use inforsight.Common.Order.{IsOrder, le_of_not}
use inforsight.Common.Sort.{insert, sort, mem-insert, mem-sort}

module _ {ℓ} {A : Type ℓ} (le : A → A → Bool) where
  -- The keys of two items differ.
  abbrev pub Apart : A → A → Type 0
  Apart x y = le x y && le y x ≡ false

  abbrev pub AreApart : List A → Type ℓ
  AreApart [] = Unit
  AreApart (x ∷ xs) = ((y : A) → Memᴰ y xs → Apart x y) × AreApart xs

  -- Every item is strictly below all that follow it.
  abbrev pub IsStrict : List A → Type ℓ
  IsStrict [] = Unit
  IsStrict (x ∷ xs) = ((y : A) → Memᴰ y xs → (le x y ≡ true) × (le y x ≡ false)) × IsStrict xs

  module _ (o : IsOrder le) where
    insert-IsStrict :
        (x : A) (xs : List A)
        → ((y : A) → Memᴰ y xs → Apart x y)
        → IsStrict xs
        → IsStrict (insert le x xs)
    unfolding insert
    insert-IsStrict x [] a s = (λ y m. elim m [ ], tt)
    insert-IsStrict x (z ∷ zs) a (below, s) = elim (Bool-cases (le x z)) [
      | inl b ↦ rw b (λ y m. under y m (over y m b), (below, s))
      | inr b ↦ rw b (
        λ y m. elim (mem-insert le y x zs m) [
          | inl q ↦
              subst (λ w. (le z w ≡ true) × (le w z ≡ false)) (sym q) (le_of_not le o x z b, b)
          | inr k ↦ below y k
        ],
        insert-IsStrict x zs (λ y m. a y (Memᴰ.tail m)) s,
      )
    ]
      where
        over : (y : A) → Memᴰ y (z ∷ zs) → le x z ≡ true → le x y ≡ true
        over y (Memᴰ.head q) b = subst (λ w. le x w ≡ true) (sym q) b
        over y (Memᴰ.tail m) b = o.trans x z y b ((below y m).0)

        under : (y : A) → Memᴰ y (z ∷ zs) → le x y ≡ true → (le x y ≡ true) × (le y x ≡ false)
        under y m b = (b, ground (arith, a y m, b))

    pub sort-IsStrict : (xs : List A) → AreApart xs → IsStrict (sort le xs)
    unfolding sort
    sort-IsStrict [] a = tt
    sort-IsStrict (x ∷ xs) (a, rest) =
        insert-IsStrict x (sort le xs) (λ y m. a y (mem-sort le y xs m)) (sort-IsStrict xs rest)

  head-same :
      (x y : A) (xs ys : List A)
      → IsStrict (x ∷ xs)
      → IsStrict (y ∷ ys)
      → Memᴰ x (y ∷ ys)
      → Memᴰ y (x ∷ xs)
      → x ≡ y
  head-same x y xs ys s t (Memᴰ.head q) n = q
  head-same x y xs ys s t (Memᴰ.tail m) (Memᴰ.head q) = sym q
  head-same x y xs ys (b, s) (c, t) (Memᴰ.tail m) (Memᴰ.tail n) = cc ((c x m).1, (b y n).0)

  behind :
      (x y a : A) (xs ys : List A)
      → x ≡ y
      → IsStrict (x ∷ xs)
      → Memᴰ a xs
      → Memᴰ a (y ∷ ys)
      → Memᴰ a ys
  behind x y a xs ys q (b, s) m (Memᴰ.tail n) = n
  behind x y a xs ys q (b, s) m (Memᴰ.head p) =
      let same : a ≡ x = p ∙ sym q in
      cc (
        sym (subst (λ z. le x z ≡ true) same ((b a m).0))
        ∙ subst (λ z. le z x ≡ false) same ((b a m).1))

  -- Strict lists with the same members are equal.
  pub strict_unique :
      (xs ys : List A)
      → IsStrict xs
      → IsStrict ys
      → ((a : A) → Memᴰ a xs → Memᴰ a ys)
      → ((a : A) → Memᴰ a ys → Memᴰ a xs)
      → xs ≡ ys
  strict_unique [] [] s t f g = refl
  strict_unique [] (y ∷ ys) s t f g = elim (g y (Memᴰ.head refl)) [ ]
  strict_unique (x ∷ xs) [] s t f g = elim (f x (Memᴰ.head refl)) [ ]
  strict_unique (x ∷ xs) (y ∷ ys) s t f g =
      let same = head-same x y xs ys s t (f x (Memᴰ.head refl)) (g y (Memᴰ.head refl)) in
      λ i.
        same i
        ∷ strict_unique xs ys s.1 t.1 (λ a m. behind x y a xs ys same s m (f a (Memᴰ.tail m)))
            (λ a m. behind y x a ys xs (sym same) t m (g a (Memᴰ.tail m))) i
