-- ===== src/Streaming/Ingress.antt =====
-- streaming.py: StreamingIngress. The JSON schema validators are a parameter.
use Prim.Native.String.{◌++◌ as join_text}
use inforsight.Common.{
  String, Bool, ◌&&◌, ◌||◌, Option, none, some, List, [], ◌∷◌, any, str_eq, if◌then◌else◌,
}

pub record StreamEvent : Type 0 where
  pub event_id : String
  pub idempotency_key : String
  pub effective_at : String
  pub occurred_at : String
  pub ingested_at : String
  pub content : String

pub data Status : Type 0 where
  accepted duplicate dead_letter : Status

pub record IngressResult : Type 0 where
  pub status : Status
  pub topic : String
  pub event_id : Option String
  pub reason : Option String

-- topic in TOPIC_SCHEMAS
unfoldable pub is_topic : String → Bool
is_topic t =
    str_eq t "policy.lifecycle.v1"
    || str_eq t "billing.payment.v1"
    || str_eq t "customer.service.v1"

-- The message of the first error of the validator of a topic, if there is one.
abbrev pub Validators : Type 0
Validators = String → StreamEvent → Option String

abbrev pub Key : Type 0
Key = String × String

-- (event["event_id"], event["idempotency_key"])
abbrev pub key_of : StreamEvent → Key
key_of e = (e.event_id, e.idempotency_key)

abbrev pub same_key : Key → Key → Bool
same_key a b = str_eq a.0 b.0 && str_eq a.1 b.1

abbrev pub is_seen : Key → List Key → Bool
is_seen key seen = any (same_key key) seen

abbrev pub dead : String → Option String → String → IngressResult
dead topic id why = record {
  status = dead_letter;
  topic = join_text topic ".dlq";
  event_id = id;
  reason = some why;
}

abbrev pub unless_seen : String → StreamEvent → List Key → IngressResult × List Key
unless_seen topic e seen =
    if is_seen (key_of e) seen
    then (
      record {
        status = duplicate;
        topic = topic;
        event_id = some e.event_id;
        reason = some "duplicate_idempotency_key";
      },
      seen,
    )
    else (
      record { status = accepted; topic = topic; event_id = some e.event_id; reason = none },
      key_of e ∷ seen,
    )

abbrev pub if_valid : String → StreamEvent → List Key → Option String → IngressResult × List Key
if_valid topic e seen (some message) = (dead topic (some e.event_id) message, seen)
if_valid topic e seen none = unless_seen topic e seen

-- ingest: the result, and the keys seen after it
unfoldable pub ingest : Validators → String → StreamEvent → List Key → IngressResult × List Key
unfolding is_topic
ingest errors topic e seen =
    if is_topic topic
    then if_valid topic e seen (errors topic e)
    else (dead topic none "unknown_topic", seen)

-- A sequence of calls.
unfoldable pub ingest_all :
    Validators → List (String × StreamEvent) → List Key → List (StreamEvent × IngressResult)
unfolding ingest
ingest_all errors [] seen = []
ingest_all errors ((topic, e) ∷ calls) seen =
    (e, (ingest errors topic e seen).0) ∷ ingest_all errors calls (ingest errors topic e seen).1
