-- ===== src/Streaming/Buffer.antt =====
-- streaming.py: PointInTimeEventBuffer. datetime.fromisoformat and json.dumps are parameters, and
-- the cutoff is a parsed instant in UTC.
use inforsight.Common.{
  ℕ, String, Bool, false, not, Option, none, some, List, [], ◌∷◌, ltb, if◌then◌else◌,
}
use inforsight.Common.Dict.{Dict, get, put}
use inforsight.Common.Order.{text_le, lex_le}
use inforsight.Common.Sort.{sort}
use inforsight.Common.Result.{Result, ok, err, ◌>>=◌, ◌>>◌, refuse_if}
use inforsight.Streaming.Ingress.{StreamEvent}

pub data BufferError : Type 0 where
  bad_time ingested_early reused_id : BufferError

-- The instant of a UTC text, and whether json.dumps with sorted keys writes two events alike.
pub record Codec : Type 0 where
  pub instant_of : String → Option ℕ
  pub same_json : StreamEvent → StreamEvent → Bool

-- _time
unfoldable pub time : Codec → String → Result BufferError ℕ
time k text = elim (k.instant_of text) [ none ↦ err bad_time | some t ↦ ok t ]

abbrev pub Buffer : Type 0
Buffer = Dict StreamEvent

-- The id is held by an event of other content.
unfoldable pub is_reused : Codec → StreamEvent → Buffer → Bool
unfolding get
is_reused k e buffer = elim (get e.event_id buffer) [
  | none ↦ false
  | some prior ↦ not (k.same_json prior e)
]

-- append
unfoldable pub append : Codec → Buffer → StreamEvent → Result BufferError Buffer
unfolding time is_reused put
append k buffer e = time k e.occurred_at >>= λ occurred. time k e.ingested_at >>= λ ingested.
    time k e.effective_at >>= λ effective.
    (refuse_if (ltb ingested occurred) ingested_early
      >> (refuse_if (is_reused k e buffer) reused_id >> ok (put e.event_id e buffer)))

unfoldable pub append_all : Codec → Buffer → List StreamEvent → Result BufferError Buffer
unfolding append
append_all k buffer [] = ok buffer
append_all k buffer (e ∷ events) = append k buffer e >>= λ next. append_all k next events

-- The event is effective and ingested by the cutoff.
unfoldable pub is_visible : Codec → ℕ → StreamEvent → Result BufferError Bool
unfolding time
is_visible k cutoff e = time k e.effective_at >>= λ effective.
    (if ltb cutoff effective
      then ok false
      else (time k e.ingested_at >>= λ ingested. ok (not (ltb cutoff ingested))))

-- [event for event in self._events.values() if ...]
unfoldable pub visible_in : Codec → ℕ → Buffer → Result BufferError (List StreamEvent)
unfolding is_visible
visible_in k cutoff [] = ok []
visible_in k cutoff ((_, e) ∷ buffer) = is_visible k cutoff e >>= λ shown.
    visible_in k cutoff buffer >>= λ rest. ok (if shown then e ∷ rest else rest)

-- The key of the sort, as a tuple of texts.
abbrev pub sort_key : StreamEvent → List String
sort_key e = e.effective_at ∷ e.occurred_at ∷ e.ingested_at ∷ e.event_id ∷ []

unfoldable pub event_le : StreamEvent → StreamEvent → Bool
unfolding lex_le text_le
event_le a b = lex_le text_le (sort_key a) (sort_key b)

-- visible_events
unfoldable pub visible_events : Codec → ℕ → Buffer → Result BufferError (List StreamEvent)
unfolding visible_in event_le
visible_events k cutoff buffer =
    visible_in k cutoff buffer >>= λ visible. ok (sort event_le visible)
