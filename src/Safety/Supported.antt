-- ===== src/Safety/Supported.antt =====
-- safety_evidence.py: every known fact has a visible event behind it.
use mathlib.Core.List.{Memᴰ}
use mathlib.Core.Path.{subst}
use inforsight.Common.{
  ℕ, ◌≤◌, String, Bool, true, false, not, ◌||◌, ◌≡◌, refl, sym, ◌⊎◌, inl, inr, Bool-cases, Option,
  some, List, [], ◌∷◌, str_eq, eq_iff, arith, if◌then◌else◌,
}
use inforsight.Common.Dict.{Dict, get, put, get-put}
use inforsight.Common.Sort.{sort, mem-sort}
use inforsight.Common.Result.{ok, chained, passed}
use inforsight.Safety.Evidence.{
  SafetyEvent, incompatible_contract, invalid_envelope, duplicate_event, contradictory, parse_time,
  Prepared, is_visible, prepare, prepared_le, has_repeats, Facts, no_facts, updates_of, contradicts,
  apply_updates, replay_event, replay_all, reconstruct_safety_evidence,
}
use inforsight.Safety.Updates.{Says, ok_same, updates_of-Says}

-- The event is in the history, is of the policy, and is effective and ingested by the cutoff.
pub record IsShown (instant_of : String → Option ℕ) (policy_id : String) (cutoff : ℕ)
    (history : List SafetyEvent) (e : SafetyEvent) : Type 0 where
  pub from : Memᴰ e history
  pub policy : e.policy_id ≡ policy_id
  pub effective : ℕ
  pub ingested : ℕ
  pub reads_effective : parse_time instant_of e.effective_at ≡ ok effective
  pub reads_ingested : parse_time instant_of e.ingested_at ≡ ok ingested
  pub effective_by : effective ≤ cutoff
  pub ingested_by : ingested ≤ cutoff

-- The known facts have an event of the kind behind them, and name it.
abbrev IsSupported : (SafetyEvent → Type 0) → Facts → Type 0
IsSupported P s =
    (f : String) (v : Bool)
    → get f s.facts ≡ some v
    → (e : SafetyEvent) × P e × Says f v e.payload × (get f s.evidence ≡ some e.event_id)

module _ (P : SafetyEvent → Type 0) (t : ℕ) (e : SafetyEvent) (p : P e) where
  put-IsSupported :
      (s : Facts) (f : String) (v : Bool) (instants : List ((ℕ × String) × Bool))
      → Says f v e.payload
      → IsSupported P s
      → IsSupported P (record s {
        facts = put f v s.facts;
        evidence = put f e.event_id s.evidence;
        instants = instants;
      })
  put-IsSupported s f v instants says k g w h = elim (Bool-cases (str_eq f g)) [
    | inl b ↦
        let same : f ≡ g = (eq_iff f g).0 b in
        let value : v ≡ w = cc (rw (get-put f g v s.facts, b) at h) in
        (
          e,
          p,
          subst (λ z. Says g z e.payload) value (subst (λ z. Says z v e.payload) same says),
          rw (get-put f g e.event_id s.evidence, b) refl,
        )
    | inr b ↦
        let (d, q, r, i) = k g w (rw (get-put f g v s.facts, b) at h) in
        (d, q, r, rw (get-put f g e.event_id s.evidence, b) i)
  ]

  apply_updates-IsSupported :
      (updates : Dict Bool) (s r : Facts)
      → ((f : String) (v : Bool) → Memᴰ {A = String × Bool} (f, v) updates → Says f v e.payload)
      → apply_updates t e.event_id updates s ≡ ok r
      → IsSupported P s
      → IsSupported P r
  unfolding apply_updates
  apply_updates-IsSupported [] s r says h k = subst (IsSupported P) (ok_same s r h) k
  apply_updates-IsSupported ((f, v) ∷ updates) s r says h k =
      let (_, h1) = passed (contradicts t f v s.instants) contradictory _ h in
      apply_updates-IsSupported updates _ r (λ g w m. says g w (Memᴰ.tail m)) h1
        (put-IsSupported s f v (((t, f), v) ∷ s.instants) (says f v (Memᴰ.head refl)) k)

replay_all-IsSupported :
    (P : SafetyEvent → Type 0) (items : List Prepared) (s r : Facts)
    → ((q : Prepared) → Memᴰ q items → P q.event)
    → replay_all s items ≡ ok r
    → IsSupported P s
    → IsSupported P r
unfolding replay_all replay_event
replay_all-IsSupported P [] s r p h k = subst (IsSupported P) (ok_same s r h) k
replay_all-IsSupported P (q ∷ items) s r p h k =
    let (next, h1, h2) = chained (replay_event s q) _ h in
    let (found, u, h3) =
      chained (updates_of s q.event.event_type q.event.event_id q.event.payload) _ h1 in
    replay_all-IsSupported P items next r (λ z m. p z (Memᴰ.tail m)) h2
      (apply_updates-IsSupported P q.effective q.event (p q (Memᴰ.head refl)) found.0
        (record s { recorded = found.1 }) next
        (λ f v m.
          updates_of-Says s q.event.event_type q.event.event_id q.event.payload found f v u m)
        h3 k)

-- A round of the first loop that passed.
record IsTaken (instant_of : String → Option ℕ) (policy_id : String) (cutoff : ℕ)
    (raw : SafetyEvent) (history : List SafetyEvent) (items : List Prepared) : Type 0 where
  policy : raw.policy_id ≡ policy_id
  effective : ℕ
  ingested : ℕ
  reads_effective : parse_time instant_of raw.effective_at ≡ ok effective
  reads_ingested : parse_time instant_of raw.ingested_at ≡ ok ingested
  rest : List Prepared
  goes_on : prepare instant_of policy_id cutoff history ≡ ok rest
  gives :
      (if is_visible cutoff effective ingested
        then record { effective = effective; event = raw } ∷ rest
        else rest)
      ≡ items

module _ (instant_of : String → Option ℕ) (policy_id : String) (cutoff : ℕ) where
  prepare-IsTaken :
      (raw : SafetyEvent) (history : List SafetyEvent) (items : List Prepared)
      → prepare instant_of policy_id cutoff (raw ∷ history) ≡ ok items
      → IsTaken instant_of policy_id cutoff raw history items
  unfolding prepare
  prepare-IsTaken raw history items h =
      let (_, h1) = passed (str_eq raw.event_id "") invalid_envelope _ h in
      let (n, h2) =
        passed (not (str_eq raw.schema_version "1.0.0") || not (str_eq raw.policy_id policy_id))
          invalid_envelope _ h1 in
      let (effective, p, h3) = chained (parse_time instant_of raw.effective_at) _ h2 in
      let (ingested, r, h4) = chained (parse_time instant_of raw.ingested_at) _ h3 in
      let (rest, t, h5) = chained (prepare instant_of policy_id cutoff history) _ h4 in
      record {
        policy = same_policy raw.policy_id policy_id (not (str_eq raw.schema_version "1.0.0")) n;
        effective = effective;
        ingested = ingested;
        reads_effective = p;
        reads_ingested = r;
        rest = rest;
        goes_on = t;
        gives = ok_same _ items h5;
      }
    where
      same_policy : (a b : String) (v : Bool) → v || not (str_eq a b) ≡ false → a ≡ b
      same_policy a b v j = ground (arith, eq_iff a b)

  IsTaken-IsShown :
      (raw : SafetyEvent) (history : List SafetyEvent) (items : List Prepared)
      → (k : IsTaken instant_of policy_id cutoff raw history items)
      → is_visible cutoff k.effective k.ingested ≡ true
      → IsShown instant_of policy_id cutoff (raw ∷ history) raw
  IsTaken-IsShown raw history items k b = record {
    from = Memᴰ.head refl;
    policy = k.policy;
    effective = k.effective;
    ingested = k.ingested;
    reads_effective = k.reads_effective;
    reads_ingested = k.reads_ingested;
    effective_by = (by_cutoff cutoff k.effective k.ingested b).0;
    ingested_by = (by_cutoff cutoff k.effective k.ingested b).1;
  }
    where
      by_cutoff : (c n m : ℕ) → is_visible c n m ≡ true → (n ≤ c) × (m ≤ c)
      by_cutoff c n m j = ground arith

  IsShown-cons :
      (raw e : SafetyEvent) (history : List SafetyEvent)
      → IsShown instant_of policy_id cutoff history e
      → IsShown instant_of policy_id cutoff (raw ∷ history) e
  IsShown-cons raw e history w = record {
    from = Memᴰ.tail w.from;
    policy = w.policy;
    effective = w.effective;
    ingested = w.ingested;
    reads_effective = w.reads_effective;
    reads_ingested = w.reads_ingested;
    effective_by = w.effective_by;
    ingested_by = w.ingested_by;
  }

  kept_or_not :
      (b : Bool) (q p : Prepared) (rest : List Prepared)
      → Memᴰ q (if b then p ∷ rest else rest)
      → ((b ≡ true) × (q ≡ p)) ⊎ Memᴰ q rest
  kept_or_not true q p rest (Memᴰ.head s) = inl (refl, s)
  kept_or_not true q p rest (Memᴰ.tail m) = inr m
  kept_or_not false q p rest m = inr m

  -- The first loop keeps visible events only.
  prepare-IsShown :
      (history : List SafetyEvent) (items : List Prepared)
      → prepare instant_of policy_id cutoff history ≡ ok items
      → (q : Prepared) → Memᴰ q items
      → IsShown instant_of policy_id cutoff history q.event
  unfolding prepare
  prepare-IsShown [] items h q m = elim (subst (λ z. Memᴰ q z) (sym (ok_same [] items h)) m) [ ]
  prepare-IsShown (raw ∷ history) items h q m =
      let k = prepare-IsTaken raw history items h in
      elim (kept_or_not (is_visible cutoff k.effective k.ingested) q
        (record { effective = k.effective; event = raw }) k.rest
        (subst (λ z. Memᴰ q z) (sym k.gives) m)) [
          | inr j ↦ IsShown-cons raw q.event history (prepare-IsShown history k.rest k.goes_on q j)
          | inl (b, s) ↦
              subst (λ (z : Prepared). IsShown instant_of policy_id cutoff (raw ∷ history) z.event)
                (sym s) (IsTaken-IsShown raw history items k b)
        ]

-- Whatever the history: a fact that the evidence knows has the value that an event of the policy
-- gives it, which is effective and ingested by the cutoff and which the evidence names.
pub reconstruct_safety_evidence-IsSupported :
    (instant_of : String → Option ℕ) (history : List SafetyEvent)
    (policy_id as_of snapshot_id source_profile : String) (s : Facts) (f : String) (v : Bool)
    → reconstruct_safety_evidence instant_of history policy_id as_of snapshot_id source_profile
      ≡ ok s
    → get f s.facts ≡ some v
    → (cutoff : ℕ) × (parse_time instant_of as_of ≡ ok cutoff)
      × ((e : SafetyEvent) × IsShown instant_of policy_id cutoff history e
          × Says f v e.payload
          × (get f s.evidence ≡ some e.event_id))
unfolding reconstruct_safety_evidence get
reconstruct_safety_evidence-IsSupported instant_of history policy_id as_of snapshot_id
      source_profile s f v h k =
    let (_, h1) =
      passed
        (not (str_eq source_profile "fictional-safety-events/1.0.0")
          || str_eq policy_id ""
          || str_eq snapshot_id "")
        incompatible_contract _ h in
    let (cutoff, c, h2) = chained (parse_time instant_of as_of) _ h1 in
    let (items, p, h3) = chained (prepare instant_of policy_id cutoff history) _ h2 in
    let (_, h4) = passed (has_repeats items) duplicate_event _ h3 in
    let shown : (q : Prepared)
        → Memᴰ q (sort prepared_le items)
        → IsShown instant_of policy_id cutoff history q.event =
      λ q m.
        prepare-IsShown instant_of policy_id cutoff history items p q
          (mem-sort prepared_le q items m) in
    (
      cutoff,
      c,
      replay_all-IsSupported (IsShown instant_of policy_id cutoff history) (sort prepared_le items)
          no_facts s shown h4 (λ g w n. cc n) f v k,
    )
