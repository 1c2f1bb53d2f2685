-- ===== src/Streaming/Arrival.antt =====
-- streaming.py: the buffer replays what it holds in one order, in whatever order it arrived.
use mathlib.Core.List.{Memᴰ}
use mathlib.Core.Path.{subst}
use inforsight.Common.{
  ℕ, Bool, true, false, not, ◌≡◌, refl, sym, ap, ◌∙◌, ◌⊎◌, inl, inr, Bool-cases, Option-cases, some,
  List, [], ◌∷◌, arith,
}
use inforsight.Common.Dict.{get, values}
use inforsight.Common.Members.{filtered, filtered-mem, mem-filtered}
use inforsight.Common.Sort.{sort, mem-sort, sort-mem}
use inforsight.Common.Strict.{AreApart, sort-IsStrict, strict_unique}
use inforsight.Common.Result.{ok, chained}
use inforsight.Streaming.Ingress.{StreamEvent}
use inforsight.Streaming.Buffer.{
  Codec, Buffer, is_reused, append, append_all, event_le, visible_events,
}
use inforsight.Streaming.Visible.{
  IsRead, append-IsAppended, event_le-IsOrder, shown, visible_in-filtered,
}
use inforsight.Streaming.Kept.{IsKept, again-IsKept, new-IsKept}

module _ (k : Codec) (distinct : (a b : StreamEvent) → k.same_json a b ≡ true → a ≡ b) where
  is_reused-some :
      (e p : StreamEvent) (b : Buffer) → get e.event_id b ≡ some p → is_reused k e b ≡ false → p ≡ e
  unfolding is_reused
  is_reused-some e p b q h = distinct p e (alike _ (rw (is_reused, q) at h))
    where
      alike : (x : Bool) → not x ≡ false → x ≡ true
      alike x n = ground arith

  append-IsKept :
      (events : List StreamEvent) (b c : Buffer) (e : StreamEvent)
      → IsKept k events b
      → append k b e ≡ ok c
      → IsKept k (e ∷ events) c
  append-IsKept events b c e s h =
      let a = append-IsAppended k b e c h in
      subst (IsKept k (e ∷ events)) a.gives (elim (Option-cases (get e.event_id b)) [
        | inl n ↦ new-IsKept k events b e s a.read n
        | inr (p, q) ↦
            again-IsKept k events b e s a.read (q ∙ ap some (is_reused-some e p b q a.fresh))
      ])

  -- The events in the reverse order of their arrival, before those that were there.
  abbrev arrived : List StreamEvent → List StreamEvent → List StreamEvent
  arrived before [] = before
  arrived before (e ∷ events) = arrived (e ∷ before) events

  append_all-IsKept :
      (events before : List StreamEvent) (b c : Buffer)
      → IsKept k before b
      → append_all k b events ≡ ok c
      → IsKept k (arrived before events) c
  unfolding append_all
  append_all-IsKept [] before b c s h = subst (IsKept k before) (cc h) s
  append_all-IsKept (e ∷ events) before b c s h =
      let (next, q, h1) = chained (append k b e) _ h in
      append_all-IsKept events (e ∷ before) next c (append-IsKept before b next e s q) h1

  mem-arrived :
      (events before : List StreamEvent) (e : StreamEvent)
      → Memᴰ e (arrived before events)
      → Memᴰ e before ⊎ Memᴰ e events
  mem-arrived [] before e m = inl m
  mem-arrived (x ∷ events) before e m = elim (mem-arrived events (x ∷ before) e m) [
    | inr n ↦ inr (Memᴰ.tail n)
    | inl n ↦ elim n [ Memᴰ.head q ↦ inr (Memᴰ.head q) | Memᴰ.tail o ↦ inl o ]
  ]

  arrived-before :
      (events before : List StreamEvent) (e : StreamEvent)
      → Memᴰ e before
      → Memᴰ e (arrived before events)
  arrived-before [] before e m = m
  arrived-before (x ∷ events) before e m = arrived-before events (x ∷ before) e (Memᴰ.tail m)

  arrived-mem :
      (events before : List StreamEvent) (e : StreamEvent)
      → Memᴰ e events
      → Memᴰ e (arrived before events)
  arrived-mem [] before e m = elim m [ ]
  arrived-mem (x ∷ events) before e (Memᴰ.head q) =
      arrived-before events (x ∷ before) e (Memᴰ.head q)
  arrived-mem (x ∷ events) before e (Memᴰ.tail m) = arrived-mem events (x ∷ before) e m

  empty-IsKept : IsKept k [] []
  empty-IsKept = record {
    apart = tt;
    sound = λ e m. m;
    full = λ e m. m;
    read = λ e m. elim m [ ];
    found = λ e m. elim m [ ];
  }

  AreApart-filtered :
      (test : StreamEvent → Bool) (xs : List StreamEvent)
      → AreApart event_le xs
      → AreApart event_le (filtered test xs)
  AreApart-filtered test [] a = tt
  AreApart-filtered test (x ∷ xs) (a, rest) = elim (Bool-cases (test x)) [
    | inl b ↦ rw b (λ y m. a y (mem-filtered test xs y m), AreApart-filtered test xs rest)
    | inr b ↦ rw b (AreApart-filtered test xs rest)
  ]

  visible_events-IsKept :
      (cutoff : ℕ) (b : Buffer)
      → ((e : StreamEvent) → Memᴰ e (values b) → IsRead k e)
      → visible_events k cutoff b ≡ ok (sort event_le (filtered (shown k cutoff) (values b)))
  unfolding visible_events
  visible_events-IsKept cutoff b r = rw (visible_in-filtered k cutoff b r) refl

  filtered-both :
      (test : StreamEvent → Bool) (xs : List StreamEvent) (x : StreamEvent)
      → Memᴰ x (filtered test xs)
      → Memᴰ x xs × (test x ≡ true)
  filtered-both test [] x m = elim m [ ]
  filtered-both test (y ∷ ys) x m = elim (Bool-cases (test y)) [
    | inl b ↦ elim (rw b at m) [
      | Memᴰ.head q ↦ (Memᴰ.head q, ap test q ∙ b)
      | Memᴰ.tail n ↦ let (o, t) = filtered-both test ys x n in (Memᴰ.tail o, t)
    ]
    | inr b ↦ let (o, t) = filtered-both test ys x (rw b at m) in (Memᴰ.tail o, t)
  ]

  -- One of the halves of the next theorem: what one buffer shows, the other shows.
  shows :
      (cutoff : ℕ) (xs ys : List StreamEvent) (b c : Buffer)
      → IsKept k (arrived [] xs) b
      → IsKept k (arrived [] ys) c
      → ((e : StreamEvent) → Memᴰ e xs → Memᴰ e ys)
      → (e : StreamEvent) → Memᴰ e (sort event_le (filtered (shown k cutoff) (values b)))
      → Memᴰ e (sort event_le (filtered (shown k cutoff) (values c)))
  shows cutoff xs ys b c s t f e m =
      let n = mem-sort event_le e (filtered (shown k cutoff) (values b)) m in
      let (held, test) = filtered-both (shown k cutoff) (values b) e n in
      sort-mem event_le e (filtered (shown k cutoff) (values c)) (
        filtered-mem (shown k cutoff) (values c) e
          (t.full e (arrived-mem ys [] e (f e (given (mem-arrived xs [] e (s.sound e held))))))
          test)
    where
      given : Memᴰ e [] ⊎ Memᴰ e xs → Memᴰ e xs
      given (inl o) = elim o [ ]
      given (inr o) = o

  -- Where the JSON texts of different events differ: buffers that were filled with the same
  -- events, in any order and with any repetitions, show the same events in the same order.
  pub visible_events-arrival :
      (cutoff : ℕ) (xs ys : List StreamEvent) (b c : Buffer)
      → append_all k [] xs ≡ ok b
      → append_all k [] ys ≡ ok c
      → ((e : StreamEvent) → Memᴰ e xs → Memᴰ e ys)
      → ((e : StreamEvent) → Memᴰ e ys → Memᴰ e xs)
      → visible_events k cutoff b ≡ visible_events k cutoff c
  visible_events-arrival cutoff xs ys b c h j f g =
      let s = append_all-IsKept xs [] [] b empty-IsKept h in
      let t = append_all-IsKept ys [] [] c empty-IsKept j in
      visible_events-IsKept cutoff b s.read
      ∙ ap ok (
          strict_unique event_le (sort event_le (filtered (shown k cutoff) (values b)))
            (sort event_le (filtered (shown k cutoff) (values c)))
            (sort-IsStrict event_le event_le-IsOrder _
              (AreApart-filtered (shown k cutoff) (values b) s.apart))
            (sort-IsStrict event_le event_le-IsOrder _
              (AreApart-filtered (shown k cutoff) (values c) t.apart))
            (shows cutoff xs ys b c s t f) (shows cutoff ys xs c b t s g))
      ∙ sym (visible_events-IsKept cutoff c t.read)
