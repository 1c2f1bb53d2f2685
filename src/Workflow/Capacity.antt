-- ===== src/Workflow/Capacity.antt =====
-- workflow/service.py, the exact resources: what is left of them, and what cases have reserved.
use inforsight.Common.{
  ℕ, ◌+◌, ◌-◌, String, not, ◌||◌, ◌≡◌, Option, none, some, [], ◌∷◌, ltb, ◌==◌, if◌then◌else◌,
}
use inforsight.Common.Dict
use inforsight.Common.Dict.{Dict}
use inforsight.Common.Result.{Result, ok, err}
use inforsight.Workflow.Models.{
  ActionResourceRequirement, no_resources, AuthorityCode, capacity_version_conflict,
  capacity_exceeded,
}

-- A reservation: the action type and what it takes.
abbrev pub Reservation : Type 0
Reservation = String × ActionResourceRequirement

pub record Capacity : Type 0 where
  pub capacity_seconds : ℕ
  pub capacity_cost_usd_micros : ℕ
  pub remaining_seconds : ℕ
  pub remaining_cost_usd_micros : ℕ
  pub capacity_version : ℕ
  pub reservation_version : ℕ
  pub reservations : Dict Reservation

-- WorkflowService.__init__, for exact capacities
abbrev pub new_capacity : ℕ → ℕ → Capacity
new_capacity seconds micros = record {
  capacity_seconds = seconds;
  capacity_cost_usd_micros = micros;
  remaining_seconds = seconds;
  remaining_cost_usd_micros = micros;
  capacity_version = 1;
  reservation_version = 0;
  reservations = [];
}

abbrev pub requirement_of : Option Reservation → ActionResourceRequirement
requirement_of none = no_resources
requirement_of (some (_, requirement)) = requirement

abbrev pub or_none_required : Option ActionResourceRequirement → ActionResourceRequirement
or_none_required none = no_resources
or_none_required (some requirement) = requirement

-- _replacement_resources: what is left once the old reservation is replaced
unfoldable pub replacement_resources :
    String → Option ActionResourceRequirement → ℕ → Capacity → Result AuthorityCode (ℕ × ℕ)
replacement_resources case_id requirement expected_capacity_version c =
    let old = requirement_of (Dict.get case_id c.reservations) in
    let new = or_none_required requirement in
    let available_seconds = c.remaining_seconds + old.personnel_seconds in
    let available_micros = c.remaining_cost_usd_micros + old.direct_cost_usd_micros in
    if not (expected_capacity_version == c.capacity_version)
    then err capacity_version_conflict
    else if ltb available_seconds new.personnel_seconds
        || ltb available_micros new.direct_cost_usd_micros
    then err capacity_exceeded
    else ok
        (available_seconds - new.personnel_seconds, available_micros - new.direct_cost_usd_micros)

unfoldable pub replaced :
    String → Option String → Option ActionResourceRequirement → Dict Reservation → Dict Reservation
replaced case_id (some action_type) (some requirement) reservations =
    Dict.put case_id (action_type, requirement) reservations
replaced case_id _ _ reservations = Dict.pop case_id reservations

set_replaced :
    String
    → Option String
    → Option ActionResourceRequirement
    → Capacity
    → Result AuthorityCode (ℕ × ℕ)
    → Result AuthorityCode (Unit {0}) × Capacity
unfolding replaced
set_replaced case_id action_type requirement c (err e) = (err e, c)
set_replaced case_id action_type requirement c (ok (seconds, micros)) = (
  ok tt,
  record c {
    remaining_seconds = seconds;
    remaining_cost_usd_micros = micros;
    capacity_version = c.capacity_version + 1;
    reservation_version = c.reservation_version + 1;
    reservations = replaced case_id action_type requirement c.reservations;
  },
)

-- replace_reservation
unfoldable pub replace_reservation :
    String
    → Option String
    → Option ActionResourceRequirement
    → ℕ
    → Capacity
    → Result AuthorityCode (Unit {0}) × Capacity
unfolding set_replaced replacement_resources
replace_reservation case_id action_type requirement expected_capacity_version c =
    set_replaced case_id action_type requirement c
      (replacement_resources case_id requirement expected_capacity_version c)

-- The seconds and the micros that all reservations take.
abbrev pub reserved_seconds : Dict Reservation → ℕ
reserved_seconds [] = 0
reserved_seconds ((_, (_, r)) ∷ rest) = r.personnel_seconds + reserved_seconds rest

abbrev pub reserved_micros : Dict Reservation → ℕ
reserved_micros [] = 0
reserved_micros ((_, (_, r)) ∷ rest) = r.direct_cost_usd_micros + reserved_micros rest

-- A case has at most one reservation.
abbrev pub HasOneEach : Dict Reservation → Type 0
HasOneEach [] = Unit
HasOneEach ((k, _) ∷ rest) = (Dict.get k rest ≡ none) × HasOneEach rest

-- Nothing is lost and nothing is promised twice.
pub record IsBalanced (c : Capacity) : Type 0 where
  pub one_each : HasOneEach c.reservations
  pub seconds : c.remaining_seconds + reserved_seconds c.reservations ≡ c.capacity_seconds
  pub micros :
      c.remaining_cost_usd_micros + reserved_micros c.reservations ≡ c.capacity_cost_usd_micros
