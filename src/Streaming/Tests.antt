-- ===== src/Streaming/Tests.antt =====
-- streaming.py: events that arrive out of order and twice.
use mathlib.Core.List.{Memᴰ}
use inforsight.Common.{
  String, Bool, true, ◌&&◌, ◌≡◌, refl, none, some, List, [], ◌∷◌, length, codes, str_eq, eq_iff,
  arith,
}
use inforsight.Common.Dict.{get, put}
use inforsight.Common.Order.{text_le, lex_le}
use inforsight.Common.Sort.{sort, insert}
use inforsight.Common.Result.{ok}
use inforsight.Streaming.Ingress.{StreamEvent, Key, Validators, ingest_all}
use inforsight.Streaming.Deduplicated.{count_accepted, counted, any_valid, ingest_all-once}
use inforsight.Streaming.Buffer.{
  Codec, time, Buffer, is_reused, append, append_all, is_visible, visible_in, event_le,
  visible_events,
}
use inforsight.Streaming.Arrival.{visible_events-arrival}

abbrev same_event : StreamEvent → StreamEvent → Bool
same_event a b =
    str_eq a.event_id b.event_id
    && (str_eq a.idempotency_key b.idempotency_key
        && (str_eq a.effective_at b.effective_at
            && (str_eq a.occurred_at b.occurred_at
                && (str_eq a.ingested_at b.ingested_at && str_eq a.content b.content))))

-- Instants are written as so many marks.
abbrev tally : Codec
tally = record { instant_of = λ t. some (length (codes t)); same_json = same_event }

same_event-eq : (a b : StreamEvent) → same_event a b ≡ true → a ≡ b
same_event-eq a b h = ground (
  arith,
  h,
  eq_iff a.event_id b.event_id,
  eq_iff a.idempotency_key b.idempotency_key,
  eq_iff a.effective_at b.effective_at,
  eq_iff a.occurred_at b.occurred_at,
  eq_iff a.ingested_at b.ingested_at,
  eq_iff a.content b.content,
)

abbrev event : String → String → StreamEvent
event id when = record {
  event_id = id;
  idempotency_key = "key";
  effective_at = when;
  occurred_at = when;
  ingested_at = when;
  content = "{}";
}

abbrev early : StreamEvent
early = event "e1" "|"

abbrev late : StreamEvent
late = event "e2" "||"

abbrev buffer : Buffer
buffer = ("e1", early) ∷ ("e2", late) ∷ []

abbrev other_buffer : Buffer
other_buffer = ("e2", late) ∷ ("e1", early) ∷ []

in_order_run : append_all tally [] (early ∷ late ∷ []) ≡ ok buffer
unfolding append_all append time is_reused get put
in_order_run = refl

repeated_run : append_all tally [] (late ∷ early ∷ late ∷ []) ≡ ok other_buffer
unfolding append_all append time is_reused get put
repeated_run = refl

arrives : (e : StreamEvent) → Memᴰ e (early ∷ late ∷ []) → Memᴰ e (late ∷ early ∷ late ∷ [])
arrives e (Memᴰ.head q) = Memᴰ.tail (Memᴰ.head q)
arrives e (Memᴰ.tail m) = Memᴰ.tail (Memᴰ.tail m)

arrived_once : (e : StreamEvent) → Memᴰ e (late ∷ early ∷ late ∷ []) → Memᴰ e (early ∷ late ∷ [])
arrived_once e (Memᴰ.head q) = Memᴰ.tail (Memᴰ.head q)
arrived_once e (Memᴰ.tail m) = m

visible_events-arrival_example : visible_events tally 3 buffer ≡ visible_events tally 3 other_buffer
visible_events-arrival_example =
    visible_events-arrival tally same_event-eq 3 (early ∷ late ∷ []) (late ∷ early ∷ late ∷ [])
      buffer other_buffer in_order_run repeated_run arrives arrived_once

shown_run : visible_events tally 3 other_buffer ≡ ok (early ∷ late ∷ [])
unfolding visible_events visible_in is_visible time event_le lex_le text_le sort insert
shown_run = refl

-- An event at half a second past the other sorts before it, since its text does.
half_past_run : text_le "2026-01-01T00:00:00.5Z" "2026-01-01T00:00:00Z" ≡ true
unfolding text_le lex_le
half_past_run = refl

abbrev no_errors : Validators
no_errors topic e = none

abbrev three_calls : List (String × StreamEvent)
three_calls = ("billing.payment.v1", early) ∷ ("unknown", late) ∷ ("billing.payment.v1", early) ∷ []

abbrev early_key : Key
early_key = ("e1", "key")

ingest_all-once_example :
    count_accepted early_key (ingest_all no_errors three_calls [])
    ≡ counted (any_valid no_errors early_key three_calls)
ingest_all-once_example = ingest_all-once no_errors early_key three_calls
