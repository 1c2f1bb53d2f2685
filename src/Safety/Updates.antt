-- ===== src/Safety/Updates.antt =====
-- safety_evidence.py: the updates of an event are what its payload says.
use mathlib.Core.List.{Memᴰ}
use mathlib.Core.Path.{subst}
use inforsight.Common.{
  String, Bool, true, false, ◌≡◌, sym, ap, ◌∙◌, inl, inr, Bool-cases, Option-cases, Option, none,
  some, [], ◌∷◌, str_eq, if◌then◌else◌,
}
use inforsight.Common.Dict.{Dict, get}
use inforsight.Common.Result.{Result, ok, err, chained}
use inforsight.Safety.Evidence.{
  Payload, not_mapping, facts_of, correction, SafetyError, invalid_payload, invalid_correction,
  is_safety_field, Facts, all_bools, checked_updates, has_field, correction_updates, updates_of,
}

-- The payload gives the field the value.
pub data Says (f : String) (v : Bool) : Payload → Type 0 where
  by_facts :
      {payload : Dict (Option Bool)}
      → Memᴰ {A = String × Option Bool} (f, some v) payload
      → Says f v (facts_of payload)
  by_correction :
      {target : String} {replacement : Dict (Option Bool)}
      → Memᴰ {A = String × Option Bool} (f, some v) replacement
      → Says f v (correction target (some replacement))

all_bools-mem :
    (payload : Dict (Option Bool)) (updates : Dict Bool) (f : String) (v : Bool)
    → all_bools payload ≡ some updates
    → Memᴰ {A = String × Bool} (f, v) updates
    → Memᴰ {A = String × Option Bool} (f, some v) payload
unfolding all_bools
all_bools-mem [] updates f v h m =
    let none_there : [] ≡ updates = cc h in
    elim (subst (λ z. Memᴰ {A = String × Bool} (f, v) z) (sym none_there) m) [ ]
all_bools-mem ((g, none) ∷ payload) updates f v h m = cc h
all_bools-mem ((g, some w) ∷ payload) updates f v h m = elim (Option-cases (all_bools payload)) [
  | inl n ↦ cc (rw n at h)
  | inr (rest, q) ↦
      let whole : (g, w) ∷ rest ≡ updates = cc (rw q at h) in
      elim (subst (λ z. Memᴰ {A = String × Bool} (f, v) z) (sym whole) m) [
        | Memᴰ.head p ↦ Memᴰ.head (ap (λ (z : String × Bool). (z.0, some z.1)) p)
        | Memᴰ.tail k ↦ Memᴰ.tail (all_bools-mem payload rest f v q k)
      ]
]

checked_updates-mem :
    (test : String → Bool) (e : SafetyError) (payload : Dict (Option Bool)) (updates : Dict Bool)
    (f : String) (v : Bool)
    → checked_updates test e payload ≡ ok updates
    → Memᴰ {A = String × Bool} (f, v) updates
    → Memᴰ {A = String × Option Bool} (f, some v) payload
unfolding checked_updates
checked_updates-mem test e payload updates f v h m = elim (Option-cases (all_bools payload)) [
  | inl n ↦ cc (rw (checked_updates, n) at h)
  | inr (u, q) ↦
      all_bools-mem payload updates f v
        (q ∙ ap some (passes _ u updates (rw (checked_updates, q) at h))) m
]
  where
    passes : (b : Bool) (u w : Dict Bool) → (if b then err e else ok u) ≡ ok w → u ≡ w
    passes true u w k = cc k
    passes false u w k = cc k

correction_updates-mem :
    (target : Option (Dict Bool)) (replacement : Option (Dict (Option Bool))) (id : String)
    (updates : Dict Bool) (f : String) (v : Bool)
    → correction_updates target replacement ≡ ok updates
    → Memᴰ {A = String × Bool} (f, v) updates
    → Says f v (correction id replacement)
unfolding correction_updates
correction_updates-mem none replacement id updates f v h m = cc h
correction_updates-mem (some target) none id updates f v h m = cc h
correction_updates-mem (some target) (some replacement) id updates f v h m =
    by_correction
      (checked_updates-mem (has_field target) invalid_correction replacement updates f v h m)

pub ok_same : {A : Type 0} (a b : A) → ◌≡◌ {A = Result SafetyError A} (ok a) (ok b) → a ≡ b
ok_same a b k = cc k

first_same :
    (a b : Dict Bool × Dict (Dict Bool))
    → ◌≡◌ {A = Result SafetyError (Dict Bool × Dict (Dict Bool))} (ok a) (ok b)
    → a.0 ≡ b.0
first_same a b k = ap (λ (z : Dict Bool × Dict (Dict Bool)). z.0) (ok_same a b k)

pub updates_of-Says :
    (s : Facts) (kind id : String) (payload : Payload) (found : Dict Bool × Dict (Dict Bool))
    (f : String) (v : Bool)
    → updates_of s kind id payload ≡ ok found
    → Memᴰ {A = String × Bool} (f, v) found.0
    → Says f v payload
unfolding updates_of
updates_of-Says s kind id not_mapping found f v h m = cc h
updates_of-Says s kind id (facts_of payload) found f v h m =
    elim (Bool-cases (str_eq kind "safety.facts_recorded")) [
      | inr b ↦ elim (Bool-cases (str_eq kind "safety.facts_corrected")) [
        | inl c ↦ cc (rw (updates_of, b, c) at h)
        | inr c ↦ cc (rw (updates_of, b, c) at h)
      ]
      | inl b ↦
          let (updates, q, r) =
            chained (checked_updates is_safety_field invalid_payload payload) _
              (rw (updates_of, b) at h) in
          by_facts (
            checked_updates-mem is_safety_field invalid_payload payload updates f v q
              (subst (λ z. Memᴰ {A = String × Bool} (f, v) z) (sym (first_same _ found r)) m))
    ]
updates_of-Says s kind id (correction target replacement) found f v h m =
    elim (Bool-cases (str_eq kind "safety.facts_recorded")) [
      | inl b ↦ cc (rw (updates_of, b) at h)
      | inr b ↦ elim (Bool-cases (str_eq kind "safety.facts_corrected")) [
        | inr c ↦ cc (rw (updates_of, b, c) at h)
        | inl c ↦
            let (updates, q, r) =
              chained (correction_updates (get target s.recorded) replacement) _
                (rw (updates_of, b, c) at h) in
            correction_updates-mem (get target s.recorded) replacement target updates f v q
              (subst (λ z. Memᴰ {A = String × Bool} (f, v) z) (sym (first_same _ found r)) m)
      ]
    ]
