-- ===== src/Streaming/Visible.antt =====
-- streaming.py: what visible_events shows of events whose times can be read.
use mathlib.Core.List.{Memᴰ}
use inforsight.Common.{
  ℕ, Bool, false, not, ◌&&◌, ◌≡◌, ◌≢◌, refl, sym, ap, ◌∙◌, inl, inr, Bool-cases, &&-both, [], ◌∷◌,
  ltb,
}
use inforsight.Common.Dict.{put, values}
use inforsight.Common.Members.{filtered}
use inforsight.Common.Order.{
  IsOrder, lex_le-IsOrder, text_le, text_le-IsOrder, text_le_antisym, lex_le_antisym,
}
use inforsight.Common.Strict.{Apart}
use inforsight.Common.Result.{Result, ok, err, chained, passed}
use inforsight.Streaming.Ingress.{StreamEvent}
use inforsight.Streaming.Buffer.{
  BufferError, ingested_early, reused_id, Codec, time, Buffer, is_reused, append, is_visible,
  visible_in, sort_key, event_le,
}

pub event_le-IsOrder : IsOrder event_le
unfolding event_le
event_le-IsOrder =
    let o = lex_le-IsOrder text_le text_le-IsOrder in
    record {
      total = λ a b. o.total (sort_key a) (sort_key b);
      trans = λ a b c h k. o.trans (sort_key a) (sort_key b) (sort_key c) h k;
    }

-- Events of different ids have different keys.
pub event_le-Apart : (a b : StreamEvent) → a.event_id ≢ b.event_id → Apart event_le a b
unfolding event_le
event_le-Apart a b n = elim (Bool-cases (event_le a b && event_le b a)) [
  | inr h ↦ h
  | inl h ↦
      let (p, q) = &&-both (event_le a b) (event_le b a) h in
      elim (n (
        last_item (
          lex_le_antisym text_le text_le-IsOrder text_le_antisym (sort_key a) (sort_key b) p
            q))) [ ]
]
  where
    last_item : sort_key a ≡ sort_key b → a.event_id ≡ b.event_id
    last_item q = cc q

-- The times of the event can be read.
pub record IsRead (k : Codec) (e : StreamEvent) : Type 0 where
  pub effective : ℕ
  pub ingested : ℕ
  pub reads_effective : time k e.effective_at ≡ ok effective
  pub reads_ingested : time k e.ingested_at ≡ ok ingested

-- Whether the event is shown, where its times can be read.
pub shown : Codec → ℕ → StreamEvent → Bool
unfolding is_visible
shown k cutoff e = elim (is_visible k cutoff e) [ ok b ↦ b | err _ ↦ false ]

pub is_visible-IsRead :
    (k : Codec) (cutoff : ℕ) (e : StreamEvent)
    → IsRead k e
    → (b : Bool) × (is_visible k cutoff e ≡ ok b)
unfolding is_visible
is_visible-IsRead k cutoff e r = elim (Bool-cases (ltb cutoff r.effective)) [
  | inl b ↦ (false, rw (is_visible, r.reads_effective, b) refl)
  | inr b ↦
      (not (ltb cutoff r.ingested), rw (is_visible, r.reads_effective, b, r.reads_ingested) refl)
]

pub is_visible-shown :
    (k : Codec) (cutoff : ℕ) (e : StreamEvent)
    → IsRead k e
    → is_visible k cutoff e ≡ ok (shown k cutoff e)
unfolding shown
is_visible-shown k cutoff e r =
    let (b, h) = is_visible-IsRead k cutoff e r in
    h ∙ ap ok (sym (ap (λ (x : Result BufferError Bool). elim x [ ok b ↦ b | err _ ↦ false ]) h))

pub visible_in-filtered :
    (k : Codec) (cutoff : ℕ) (b : Buffer)
    → ((e : StreamEvent) → Memᴰ e (values b) → IsRead k e)
    → visible_in k cutoff b ≡ ok (filtered (shown k cutoff) (values b))
unfolding visible_in
visible_in-filtered k cutoff [] r = refl
visible_in-filtered k cutoff ((i, e) ∷ b) r =
    rw
      (
        is_visible-shown k cutoff e (r e (Memᴰ.head refl)),
        visible_in-filtered k cutoff b (λ x m. r x (Memᴰ.tail m)),
      )
      refl

-- An append that passed.
pub record IsAppended (k : Codec) (b : Buffer) (e : StreamEvent) (c : Buffer) : Type 0 where
  pub read : IsRead k e
  pub fresh : is_reused k e b ≡ false
  pub gives : put e.event_id e b ≡ c

pub append-IsAppended :
    (k : Codec) (b : Buffer) (e : StreamEvent) (c : Buffer)
    → append k b e ≡ ok c
    → IsAppended k b e c
unfolding append
append-IsAppended k b e c h =
    let (occurred, _, h1) = chained (time k e.occurred_at) _ h in
    let (ingested, p, h2) = chained (time k e.ingested_at) _ h1 in
    let (effective, q, h3) = chained (time k e.effective_at) _ h2 in
    let (_, h4) = passed (ltb ingested occurred) ingested_early _ h3 in
    let (f, h5) = passed (is_reused k e b) reused_id _ h4 in
    record {
      read = record {
        effective = effective;
        ingested = ingested;
        reads_effective = q;
        reads_ingested = p;
      };
      fresh = f;
      gives = cc h5;
    }
