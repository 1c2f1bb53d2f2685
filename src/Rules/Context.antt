-- ===== src/Rules/Context.antt =====
-- rules/models.py: the validation of a PolicyContext and its construction from a mapping.
use inforsight.Common.{
  ℕ, String, Bool, true, false, not, Option, none, some, ltb, str_eq, ◌==◌, if◌then◌else◌, ◌&&◌,
}
use inforsight.Common.Int.{ℤ, pos, ltℤ, pos_part, neg_part}
use inforsight.Common.Result.{Result, ok, err, ◌>>=◌, ◌>>◌, refuse_if}
use inforsight.Rules.Models.{
  ContextError, DateTime, PyValue, py_none, py_bool, py_int, py_text, py_datetime, py_other,
  PolicyContext, empty_policy_id, as_of_not_datetime, as_of_not_utc, negative_tenure_days,
  negative_days_past_due, flag_not_boolean, last_contact_not_datetime, last_contact_not_utc,
  last_contact_in_future, missing_key, bad_timestamp, bad_integer,
}

-- tzinfo is None or utcoffset() != utc
unfoldable pub not_utc : DateTime → Bool
not_utc d = elim d.offset [ none ↦ true | some o ↦ not (pos_part o == 0 && neg_part o == 0) ]

unfoldable pub negative_option : Option ℤ → Bool
negative_option none = false
negative_option (some n) = ltℤ n (pos 0)

-- The mapping; `none` is a missing key.
pub record ContextMapping : Type 0 where
  pub policy_id : Option PyValue
  pub as_of : Option PyValue
  pub status : Option PyValue
  pub tenure_days : Option PyValue
  pub in_grace_period : Option PyValue
  pub days_past_due : Option PyValue
  pub has_active_claim : Option PyValue
  pub has_legal_hold : Option PyValue
  pub has_registered_dispute : Option PyValue
  pub sms_opt_out : Option PyValue
  pub email_opt_out : Option PyValue
  pub phone_opt_out : Option PyValue
  pub dnc_registered : Option PyValue
  pub last_contact_date : Option PyValue

-- The conversions that Python makes: a text to a UTC instant
-- (`datetime.fromisoformat(text.replace("Z", "+00:00")).astimezone(timezone.utc)`), `int(text)`, and
-- `int` and `bool` of other objects, where `none` is an exception.
pub record Parsers : Type 0 where
  pub iso_utc : String → Option ℕ
  pub int_of_text : String → Option ℤ
  pub int_of_other : ℕ → Option ℤ
  pub truth_of_other : ℕ → Bool

-- The arguments of the call of `cls`.
pub record Arguments : Type 0 where
  pub policy_id : PyValue
  pub as_of : PyValue
  pub status : PyValue
  pub tenure_days : ℤ
  pub in_grace_period : Bool
  pub days_past_due : Option ℤ
  pub has_active_claim : PyValue
  pub has_legal_hold : PyValue
  pub has_registered_dispute : PyValue
  pub sms_opt_out : PyValue
  pub email_opt_out : PyValue
  pub phone_opt_out : PyValue
  pub dnc_registered : PyValue
  pub last_contact_date : PyValue

-- What `__post_init__` accepts: the status, which it does not look at, beside the context. The
-- context has the status where that is a text, and "" where it is not.
abbrev pub ReadContext : Type 0
ReadContext = PyValue × PolicyContext

-- data[key]
require : {A : Type 0} → String → Option A → Result ContextError A
require key none = err (missing_key key)
require key (some v) = ok v

-- data.get(key)
get_value : Option PyValue → PyValue
get_value none = py_none
get_value (some v) = v

or_error : {A : Type 0} → ContextError → Option A → Result ContextError A
or_error e none = err e
or_error e (some v) = ok v

utc : ℕ → DateTime
utc n = record { instant = n; offset = some (pos 0) }

abbrev pub text_or_empty : PyValue → String
text_or_empty (py_text s) = s
text_or_empty _ = ""

-- `value is not None and type(value) is not bool`
flag : PyValue → Result ContextError (Option Bool)
flag py_none = ok none
flag (py_bool b) = ok (some b)
flag _ = err flag_not_boolean

-- isinstance(as_of, datetime)
unfoldable pub datetime_value : PyValue → Result ContextError DateTime
datetime_value (py_datetime d) = ok d
datetime_value _ = err as_of_not_datetime

unfoldable pub check_last_contact : DateTime → PyValue → Result ContextError (Option DateTime)
unfolding not_utc
check_last_contact as_of py_none = ok none
check_last_contact as_of (py_datetime last) = do
  refuse_if (not_utc last) last_contact_not_utc
  refuse_if (ltb as_of.instant last.instant) last_contact_in_future
  ok (some last)
check_last_contact as_of _ = err last_contact_not_datetime

pub record Flags : Type 0 where
  pub has_active_claim : Option Bool
  pub has_legal_hold : Option Bool
  pub has_registered_dispute : Option Bool
  pub sms_opt_out : Option Bool
  pub email_opt_out : Option Bool
  pub phone_opt_out : Option Bool
  pub dnc_registered : Option Bool

-- The loop over the names of the flags.
unfoldable pub read_flags : Arguments → Result ContextError Flags
unfolding flag
read_flags a = do
  claim ← flag a.has_active_claim
  hold ← flag a.has_legal_hold
  dispute ← flag a.has_registered_dispute
  sms ← flag a.sms_opt_out
  email ← flag a.email_opt_out
  phone ← flag a.phone_opt_out
  dnc ← flag a.dnc_registered
  ok (record {
    has_active_claim = claim;
    has_legal_hold = hold;
    has_registered_dispute = dispute;
    sms_opt_out = sms;
    email_opt_out = email;
    phone_opt_out = phone;
    dnc_registered = dnc;
  })

unfoldable pub with_contact : Arguments → DateTime → Flags → Result ContextError ReadContext
unfolding check_last_contact
with_contact a as_of flags = do
  last ← check_last_contact as_of a.last_contact_date
  ok (
    a.status,
    record {
      policy_id = a.policy_id;
      as_of = as_of;
      status = text_or_empty a.status;
      tenure_days = a.tenure_days;
      in_grace_period = a.in_grace_period;
      days_past_due = a.days_past_due;
      has_active_claim = flags.has_active_claim;
      has_legal_hold = flags.has_legal_hold;
      has_registered_dispute = flags.has_registered_dispute;
      sms_opt_out = flags.sms_opt_out;
      email_opt_out = flags.email_opt_out;
      phone_opt_out = flags.phone_opt_out;
      dnc_registered = flags.dnc_registered;
      last_contact_date = last;
    },
  )

module _ (p : Parsers) where
  -- bool(value)
  unfoldable pub truth : PyValue → Bool
  truth py_none = false
  truth (py_bool b) = b
  truth (py_int n) = not (pos_part n == 0 && neg_part n == 0)
  truth (py_text s) = not (str_eq s "")
  truth (py_datetime _) = true
  truth (py_other n) = p.truth_of_other n

  -- int(value)
  int_value : PyValue → Result ContextError ℤ
  unfolding or_error
  int_value (py_int n) = ok n
  int_value (py_bool b) = ok (pos (if b then 1 else 0))
  int_value (py_text s) = or_error bad_integer (p.int_of_text s)
  int_value (py_other n) = or_error bad_integer (p.int_of_other n)
  int_value _ = err bad_integer

  days_value : PyValue → Result ContextError (Option ℤ)
  unfolding int_value
  days_value py_none = ok none
  days_value v = do n ← int_value v; ok (some n)

  -- A text is parsed, and another value is kept.
  time_value : PyValue → Result ContextError PyValue
  unfolding or_error utc
  time_value (py_text s) = do n ← or_error bad_timestamp (p.iso_utc s); ok (py_datetime (utc n))
  time_value v = ok v

  unfoldable pub arguments : ContextMapping → Result ContextError Arguments
  unfolding require get_value time_value int_value days_value truth
  arguments m = do
    raw_as_of ← require "as_of" m.as_of
    as_of ← time_value raw_as_of
    last ← time_value (get_value m.last_contact_date)
    policy_id ← require "policy_id" m.policy_id
    status ← require "status" m.status
    raw_tenure ← require "tenure_days" m.tenure_days
    tenure ← int_value raw_tenure
    raw_grace ← require "in_grace_period" m.in_grace_period
    past_due ← days_value (get_value m.days_past_due)
    ok (record {
      policy_id = policy_id;
      as_of = as_of;
      status = status;
      tenure_days = tenure;
      in_grace_period = truth raw_grace;
      days_past_due = past_due;
      has_active_claim = get_value m.has_active_claim;
      has_legal_hold = get_value m.has_legal_hold;
      has_registered_dispute = get_value m.has_registered_dispute;
      sms_opt_out = get_value m.sms_opt_out;
      email_opt_out = get_value m.email_opt_out;
      phone_opt_out = get_value m.phone_opt_out;
      dnc_registered = get_value m.dnc_registered;
      last_contact_date = last;
    })

  -- PolicyContext.__post_init__
  unfoldable pub post_init : Arguments → Result ContextError ReadContext
  unfolding not_utc negative_option datetime_value truth read_flags with_contact
  post_init a = do
    refuse_if (not (truth a.policy_id)) empty_policy_id
    as_of ← datetime_value a.as_of
    refuse_if (not_utc as_of) as_of_not_utc
    refuse_if (ltℤ a.tenure_days (pos 0)) negative_tenure_days
    refuse_if (negative_option a.days_past_due) negative_days_past_due
    flags ← read_flags a
    with_contact a as_of flags

  -- PolicyContext.from_dict
  unfoldable pub from_dict : ContextMapping → Result ContextError ReadContext
  unfolding arguments post_init
  from_dict m = do a ← arguments m; post_init a
