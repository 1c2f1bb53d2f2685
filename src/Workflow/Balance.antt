-- ===== src/Workflow/Balance.antt =====
-- The resources of workflow/service.py stay balanced.
use inforsight.Common.{
  ℕ, ◌+◌, String, true, ◌≡◌, refl, ap, Option, none, some, [], ◌∷◌, str_eq, eq_iff, arith,
  Bool-cases, inl, inr,
}
use inforsight.Common.Dict
use inforsight.Common.Dict.{Dict, get-put, get-pop}
use inforsight.Workflow.Models.{ActionResourceRequirement}
use inforsight.Workflow.Capacity.{
  Reservation, Capacity, requirement_of, replace_reservation, reserved_seconds, reserved_micros,
  HasOneEach, IsBalanced,
}

module _ (k : String) where
  one_each-put :
      (v : Reservation) (d : Dict Reservation) → HasOneEach d → HasOneEach (Dict.put k v d)
  unfolding Dict.put Dict.get
  one_each-put v [] h = (refl, tt)
  one_each-put v ((j, w) ∷ d) (a, h) =
      ground (arith, one_each-put v d h, get-put k j v d, eq_iff j k, eq_iff k j)

  one_each-pop : (d : Dict Reservation) → HasOneEach d → HasOneEach (Dict.pop k d)
  unfolding Dict.pop Dict.get
  one_each-pop [] h = tt
  one_each-pop ((j, w) ∷ d) (a, h) =
      ground (arith, one_each-pop d h, get-pop k j d, eq_iff j k, eq_iff k j)

  -- The sums change by what the case held before and holds after.
  sum-put :
      (v : Reservation) (d : Dict Reservation)
      → (reserved_seconds (Dict.put k v d) + (requirement_of (Dict.get k d)).personnel_seconds
          ≡ reserved_seconds d + (v.1).personnel_seconds)
        × (reserved_micros (Dict.put k v d) + (requirement_of (Dict.get k d)).direct_cost_usd_micros
            ≡ reserved_micros d + (v.1).direct_cost_usd_micros)
  unfolding Dict.put Dict.get
  sum-put v [] = ground arith
  sum-put v ((j, w) ∷ d) = ground (arith, sum-put v d)

  pop_absent : (d : Dict Reservation) → Dict.get k d ≡ none → Dict.pop k d ≡ d
  unfolding Dict.pop Dict.get
  pop_absent [] h = refl
  pop_absent ((j, w) ∷ d) h = ground (arith, pop_absent d)

  sum-pop :
      (d : Dict Reservation)
      → HasOneEach d
      → (reserved_seconds (Dict.pop k d) + (requirement_of (Dict.get k d)).personnel_seconds
          ≡ reserved_seconds d)
        × (reserved_micros (Dict.pop k d) + (requirement_of (Dict.get k d)).direct_cost_usd_micros
            ≡ reserved_micros d)
  unfolding Dict.pop Dict.get
  sum-pop [] h = ground arith
  sum-pop ((j, w) ∷ d) (a, h) = elim (Bool-cases (str_eq j k)) [
    | inl e ↦ ground (arith, ap reserved_seconds (gone a e), ap reserved_micros (gone a e))
    | inr e ↦ ground (arith, sum-pop d h)
  ]
    where
      gone : Dict.get j d ≡ none → str_eq j k ≡ true → Dict.pop k d ≡ d
      gone a e = pop_absent d (rw ((eq_iff j k).0 e) at a)

module _ (case_id : String) (version : ℕ) (c : Capacity) (b : IsBalanced c) where
  release-IsBalanced : IsBalanced (replace_reservation case_id none none version c).1
  unfolding replace_reservation
  release-IsBalanced =
      let p = sum-pop case_id c.reservations b.one_each in
      let o = one_each-pop case_id c.reservations b.one_each in ground (arith, b.seconds, b.micros)

  reserve-IsBalanced :
      (action_type : String) (r : ActionResourceRequirement)
      → IsBalanced (replace_reservation case_id (some action_type) (some r) version c).1
  unfolding replace_reservation
  reserve-IsBalanced action_type r =
      let p = sum-put case_id (action_type, r) c.reservations in
      let o = one_each-put case_id (action_type, r) c.reservations b.one_each in
      ground (arith, b.seconds, b.micros)

abbrev pub action_of : Option Reservation → Option String
action_of none = none
action_of (some (a, _)) = some a

abbrev pub needs_of : Option Reservation → Option ActionResourceRequirement
needs_of none = none
needs_of (some (_, r)) = some r

-- Replacing a reservation, whether it is granted or refused, keeps the resources balanced: what
-- remains and what is reserved add up to the capacity, with one reservation at most for a case.
-- Its action and its requirement are given together or not at all.
pub replace_reservation-IsBalanced :
    (case_id : String) (held : Option Reservation) (version : ℕ) (c : Capacity)
    → IsBalanced c
    → IsBalanced (replace_reservation case_id (action_of held) (needs_of held) version c).1
replace_reservation-IsBalanced case_id none version c b = release-IsBalanced case_id version c b
replace_reservation-IsBalanced case_id (some (a, r)) version c b =
    reserve-IsBalanced case_id version c b a r
