-- ===== src/Rules/Loop.antt =====
-- The loop of rules/engine.py over a catalog, for any judgement of one action.
use mathlib.Core.List.{Memᴰ}
use inforsight.Common.{
  String, Bool, true, false, ◌&&◌, ◌||◌, ◌≡◌, ◌↔◌, refl, ◌∙◌, ap, Option, none, some, List, [], ◌∷◌,
  ◌++◌, map, any, contains, contains-append, str_eq, eq_iff, arith, if◌then◌else◌, inl, inr,
  Bool-cases,
}
use inforsight.Common.Dict
use inforsight.Common.Dict.{Dict, get-put}
use inforsight.Rules.Models.{ConservationActionDefinition, ActionEligibilityResult}
use inforsight.Rules.Engine.{Catalog, fill}

-- The action types of a catalog are distinct.
abbrev pub HasDistinctTypes : Catalog → Type 0
HasDistinctTypes [] = Unit
HasDistinctTypes (a ∷ rest) =
    (contains a.action_type (map (λ (b : ConservationActionDefinition). b.action_type) rest)
      ≡ false)
    × HasDistinctTypes rest

contains-grown :
    (k t : String) (xs : List String) (b : Bool)
    → contains k (if b then xs ++ t ∷ [] else xs) ≡ (contains k xs || (b && str_eq t k))
contains-grown k t xs true = contains-append k xs (t ∷ []) ∙ ground arith
contains-grown k t xs false = ground arith

module _ (judge : ConservationActionDefinition → ActionEligibilityResult) where
  -- An action of the catalog is judged eligible under the type `k`.
  abbrev pub offers : String → Catalog → Bool
  offers k = any (λ a. (judge a).is_eligible && str_eq (judge a).action_type k)

  -- What the results hold under a type: the last judgement wins.
  abbrev pub last_match :
      String → Catalog → Option ActionEligibilityResult → Option ActionEligibilityResult
  last_match k [] found = found
  last_match k (a ∷ rest) found =
      last_match k rest (if str_eq (judge a).action_type k then some (judge a) else found)

  pub fill-eligible :
      (k : String) (catalog : Catalog) (results : Dict ActionEligibilityResult)
      (eligible : List String)
      → contains k (fill judge catalog (results, eligible)).1
        ≡ (contains k eligible || offers k catalog)
  unfolding fill
  fill-eligible k [] results eligible = ground arith
  fill-eligible k (a ∷ rest) results eligible =
      fill-eligible k rest _ _
      ∙ ground (arith, contains-grown k (judge a).action_type eligible (judge a).is_eligible)

  pub fill-results :
      (k : String) (catalog : Catalog) (results : Dict ActionEligibilityResult)
      (eligible : List String)
      → Dict.get k (fill judge catalog (results, eligible)).0
        ≡ last_match k catalog (Dict.get k results)
  unfolding fill
  fill-results k [] results eligible = refl
  fill-results k (a ∷ rest) results eligible =
      fill-results k rest _ _
      ∙ ap (last_match k rest) (get-put (judge a).action_type k (judge a) results)

  mem-offers :
      (k : String) {b : ConservationActionDefinition} {catalog : Catalog}
      → Memᴰ b catalog
      → (judge b).is_eligible ≡ true
      → (judge b).action_type ≡ k
      → offers k catalog ≡ true
  mem-offers k {b} (Memᴰ.head e) ok t = ground (arith, eq_iff (judge b).action_type k, ap judge e)
  mem-offers k (Memᴰ.tail m) ok t = ground (arith, mem-offers k m ok t)

  pub offers-mem :
      (k : String) (catalog : Catalog)
      → (offers k catalog ≡ true) ↔ (
          (a : ConservationActionDefinition) × Memᴰ a catalog
          × ((judge a).is_eligible ≡ true)
          × ((judge a).action_type ≡ k))
  offers-mem k [] = (λ h. cc, λ (_, m, _, _). elim m [ ])
  offers-mem k (a ∷ rest) = (
    (λ h. elim (Bool-cases ((judge a).is_eligible && str_eq (judge a).action_type k)) [
      | inl e ↦ (a, Memᴰ.head refl, ground arith, ground (arith, eq_iff (judge a).action_type k))
      | inr e ↦ let (b, m, ok, t) = (offers-mem k rest).0 (ground arith) in (b, Memᴰ.tail m, ok, t)
    ]),
    λ (b, m, ok, t). mem-offers k m ok t,
  )

  module _
      (types : (a : ConservationActionDefinition) → (judge a).action_type ≡ a.action_type) where
    absent :
        (k : String) (catalog : Catalog) (found : Option ActionEligibilityResult)
        → contains k (map (λ (b : ConservationActionDefinition). b.action_type) catalog) ≡ false
        → (last_match k catalog found ≡ found) × (offers k catalog ≡ false)
    absent k [] found h = (refl, refl)
    absent k (a ∷ rest) found h = ground (arith, types a, absent k rest found)

    -- With distinct types the results under a type agree with the list of the eligible ones.
    pub fill_agree :
        (k : String) (catalog : Catalog)
        → HasDistinctTypes catalog
        → (elim (last_match k catalog none) [ none ↦ false | some r ↦ r.is_eligible ])
          ≡ offers k catalog
    fill_agree k [] d = refl
    fill_agree k (a ∷ rest) d = elim (Bool-cases (str_eq a.action_type k)) [
      | inl e ↦
          let same = (eq_iff a.action_type k).0 e in
          ground (
            arith,
            types a,
            eq_iff (judge a).action_type k,
            absent k rest (some (judge a)) (rw same at d.0),
          )
      | inr e ↦ ground (arith, types a, fill_agree k rest d.1)
    ]
