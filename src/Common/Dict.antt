-- ===== src/Common/Dict.antt =====
-- Python's `dict` with text keys, in insertion order: a write to a present key keeps its place.
use Prim.Native.String.{String}
use mathlib.Core.Path.{◌≡◌, refl}
use mathlib.Core.List.{List, [], ◌∷◌}
use mathlib.Core.Option.{Option, none, some}
use native.Mathlib.Omega.{arith}
use text.Mathlib.Text.{◌==◌}
use text.Mathlib.TextEquality.{eq_iff}
use inforsight.Common.Tests.{if◌then◌else◌}

abbrev pub Dict {ℓ} : Type ℓ → Type ℓ
Dict V = List (String × V)

module _ {ℓ} {V : Type ℓ} where
  -- list(d.values())
  abbrev pub values : Dict V → List V
  values [] = []
  values ((_, v) ∷ rest) = v ∷ values rest

  -- d.get(k)
  unfoldable pub get : String → Dict V → Option V
  get k [] = none
  get k ((j, v) ∷ d) = if j == k then some v else get k d

  -- d[k] = v
  unfoldable pub put : String → V → Dict V → Dict V
  put k v [] = (k, v) ∷ []
  put k v ((j, w) ∷ d) = if j == k then (j, v) ∷ d else (j, w) ∷ put k v d

  -- d.pop(k, None)
  unfoldable pub pop : String → Dict V → Dict V
  pop k [] = []
  pop k ((j, w) ∷ d) = let rest = pop k d in if j == k then rest else (j, w) ∷ rest

  pub get-put :
      (k j : String) (v : V) (d : Dict V) → get j (put k v d) ≡ (if k == j then some v else get j d)
  unfolding get put
  get-put k j v [] = refl
  get-put k j v ((i, w) ∷ d) = ground (arith, eq_iff k j, eq_iff i k, eq_iff i j, get-put k j v d)

  pub get-pop : (k j : String) (d : Dict V) → get j (pop k d) ≡ (if k == j then none else get j d)
  unfolding get pop
  get-pop k j [] = ground arith
  get-pop k j ((i, w) ∷ d) = ground (arith, eq_iff k j, eq_iff i k, eq_iff i j, get-pop k j d)

  pub get-put_self : (k : String) (v : V) (d : Dict V) → get k (put k v d) ≡ some v
  get-put_self k v d = ground (arith, eq_iff k k, get-put k k v d)

pub ruleset dict_laws = (get-put, get-pop)

module _ {ℓ} {V : Type ℓ} (k : String) where
  -- The last of two writes to a key is the one that counts.
  pub put-put : (v w : V) (d : Dict V) → put k v (put k w d) ≡ put k v d
  unfolding put
  put-put v w [] = ground (arith, eq_iff k k)
  put-put v w ((j, u) ∷ d) = ground (arith, put-put v w d)

  -- Writing what a key holds changes nothing.
  pub put-get : (v : V) (d : Dict V) → get k d ≡ some v → put k v d ≡ d
  unfolding put get
  put-get v [] h = cc
  put-get v ((j, u) ∷ d) h = ground (arith, put-get v d)
