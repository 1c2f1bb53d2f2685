-- ===== src/Common/Order.antt =====
-- Orders as Boolean tests: Python's order on tuples and texts, made of that on their items.
use Prim.Native.Nat.{ℕ}
use Prim.Native.String.{String}
use Prim.Native.Char.{code}
use text.Mathlib.TextEquality.{Char-path}
use mathlib.Core.Path.{◌≡◌, refl}
use mathlib.Core.Logic.{◌⊎◌, inl, inr}
use mathlib.Core.Bool.{Bool, true, false, not}
use mathlib.Core.List.{List, [], ◌∷◌, ◌++◌}
use native.Mathlib.Omega.{arith}
use inforsight.Common.Tests.{leb, if◌then◌else◌}
use inforsight.Common.Lists.{length}
use inforsight.Common.Text.{codes}

-- A test `a <= b` under which any two values compare. Values may be equal in it and differ.
pub record IsOrder {ℓ} {A : Type ℓ} (le : A → A → Bool) : Type ℓ where
  pub total : (a b : A) → (le a b ≡ true) ⊎ (le b a ≡ true)
  pub trans : (a b c : A) → le a b ≡ true → le b c ≡ true → le a c ≡ true

module _ {ℓ} {A : Type ℓ} (le : A → A → Bool) where
  -- xs <= ys for sequences: the first items that differ decide, and a prefix comes first.
  unfoldable pub lex_le : List A → List A → Bool
  lex_le [] ys = true
  lex_le (x ∷ xs) [] = false
  lex_le (x ∷ xs) (y ∷ ys) =
      if not (le y x) then true else if not (le x y) then false else lex_le xs ys

  module _ (o : IsOrder le) where
    pub le_refl : (a : A) → le a a ≡ true
    le_refl a = elim (o.total a a) [ inl h ↦ h | inr h ↦ h ]

    pub le_of_not : (a b : A) → le a b ≡ false → le b a ≡ true
    le_of_not a b h = elim (o.total a b) [ inl k ↦ cc | inr k ↦ k ]

    lex_le_total : (xs ys : List A) → (lex_le xs ys ≡ true) ⊎ (lex_le ys xs ≡ true)
    unfolding lex_le
    lex_le_total [] ys = inl refl
    lex_le_total (x ∷ xs) [] = inr refl
    lex_le_total (x ∷ xs) (y ∷ ys) = ground (arith, o.total x y, lex_le_total xs ys)

    lex_le_trans :
        (xs ys zs : List A) → lex_le xs ys ≡ true → lex_le ys zs ≡ true → lex_le xs zs ≡ true
    unfolding lex_le
    lex_le_trans [] ys zs h k = refl
    lex_le_trans (x ∷ xs) [] zs h k = cc
    lex_le_trans (x ∷ xs) (y ∷ ys) [] h k = cc
    lex_le_trans (x ∷ xs) (y ∷ ys) (z ∷ zs) h k = ground (
      arith,
      o.total x y,
      o.total y z,
      o.total x z,
      o.trans x y z,
      o.trans z x y,
      o.trans y z x,
      o.trans z y x,
      lex_le_trans xs ys zs,
    )

    pub lex_le-IsOrder : IsOrder lex_le
    lex_le-IsOrder = record { total = lex_le_total; trans = lex_le_trans }

    -- Sequences of one length keep their order when an item is added to both.
    pub lex_le-append :
        (xs ys : List A) (z : A)
        → length xs ≡ length ys
        → lex_le xs ys ≡ true
        → lex_le (xs ++ z ∷ []) (ys ++ z ∷ []) ≡ true
    unfolding lex_le
    lex_le-append [] [] z n h = ground (arith, le_refl z)
    lex_le-append [] (y ∷ ys) z n h = cc
    lex_le-append (x ∷ xs) [] z n h = cc
    lex_le-append (x ∷ xs) (y ∷ ys) z n h = ground (arith, lex_le-append xs ys z)

-- s <= t for texts, by code points.
unfoldable pub text_le : String → String → Bool
unfolding lex_le
text_le s t = lex_le leb (codes s) (codes t)

leb-IsOrder : IsOrder leb
leb-IsOrder = record { total = λ a b. ground arith; trans = λ a b c h k. ground arith }

pub text_le-IsOrder : IsOrder text_le
unfolding text_le
text_le-IsOrder =
    let o = lex_le-IsOrder leb leb-IsOrder in
    record {
      total = λ a b. o.total (codes a) (codes b);
      trans = λ a b c h k. o.trans (codes a) (codes b) (codes c) h k;
    }

-- s < t
abbrev pub text_lt : String → String → Bool
text_lt s t = not (text_le t s)

leb_antisym : (a b : ℕ) → leb a b ≡ true → leb b a ≡ true → a ≡ b
leb_antisym a b h k = ground arith

-- Sequences that are below each other are one, where that holds of their items.
pub lex_le_antisym {ℓ} :
    {A : Type ℓ} (le : A → A → Bool)
    → IsOrder le
    → ((a b : A) → le a b ≡ true → le b a ≡ true → a ≡ b)
    → (xs ys : List A) → lex_le le xs ys ≡ true
    → lex_le le ys xs ≡ true
    → xs ≡ ys
unfolding lex_le
lex_le_antisym le o same [] [] h k = refl
lex_le_antisym le o same [] (y ∷ ys) h k = cc
lex_le_antisym le o same (x ∷ xs) [] h k = cc
lex_le_antisym le o same (x ∷ xs) (y ∷ ys) h k =
    ground (arith, lex_le_antisym le o same xs ys, same x y, o.total x y)

codes-injective : (s t : String) → codes s ≡ codes t → s ≡ t
codes-injective String.[] String.[] h = refl
codes-injective String.[] (String.◌∷◌ d t) h = cc h
codes-injective (String.◌∷◌ c s) String.[] h = cc h
codes-injective (String.◌∷◌ c s) (String.◌∷◌ d t) h =
    let heads : code c ≡ code d = cc h in
    let tails : codes s ≡ codes t = cc h in
    λ i. String.◌∷◌ (Char-path c d heads i) (codes-injective s t tails i)

-- Texts that are below each other are one text.
pub text_le_antisym : (s t : String) → text_le s t ≡ true → text_le t s ≡ true → s ≡ t
unfolding text_le
text_le_antisym s t h k =
    codes-injective s t (lex_le_antisym leb leb-IsOrder leb_antisym (codes s) (codes t) h k)
