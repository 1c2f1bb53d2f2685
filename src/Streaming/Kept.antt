-- ===== src/Streaming/Kept.antt =====
-- streaming.py: what a buffer keeps when one event is appended.
use mathlib.Core.List.{Memᴰ}
use mathlib.Core.Path.{subst}
use inforsight.Common.{
  String, ◌≡◌, ◌≢◌, refl, sym, ap, ◌∙◌, ◌⊎◌, inl, inr, Bool-cases, none, some, List, [], ◌∷◌, ◌++◌,
  str_eq, eq_iff, arith,
}
use inforsight.Common.Dict.{get, put, values, get-put, get-put_self, put-get}
use inforsight.Common.Members.{mem-append, append-left, append-right}
use inforsight.Common.Strict.{Apart, AreApart}
use inforsight.Streaming.Ingress.{StreamEvent}
use inforsight.Streaming.Buffer.{Codec, Buffer, event_le}
use inforsight.Streaming.Visible.{IsRead, event_le-Apart}

-- What a buffer keeps of the events that were appended.
pub record IsKept (k : Codec) (events : List StreamEvent) (b : Buffer) : Type 0 where
  pub apart : AreApart event_le (values b)
  pub sound : (e : StreamEvent) → Memᴰ e (values b) → Memᴰ e events
  pub full : (e : StreamEvent) → Memᴰ e events → Memᴰ e (values b)
  pub read : (e : StreamEvent) → Memᴰ e (values b) → IsRead k e
  pub found : (e : StreamEvent) → Memᴰ e (values b) → get e.event_id b ≡ some e

pub values-put :
    (i : String) (e : StreamEvent) (b : Buffer)
    → get i b ≡ none
    → values (put i e b) ≡ values b ++ e ∷ []
unfolding put get
values-put i e [] h = refl
values-put i e ((j, x) ∷ b) h = ground (arith, values-put i e b)

pub get-values : (i : String) (e : StreamEvent) (b : Buffer) → get i b ≡ some e → Memᴰ e (values b)
unfolding get
get-values i e [] h = cc h
get-values i e ((j, x) ∷ b) h = elim (Bool-cases (str_eq j i)) [
  | inl c ↦ Memᴰ.head (sym (cc (rw (get, c) at h)))
  | inr c ↦ Memᴰ.tail (get-values i e b (rw (get, c) at h))
]

pub AreApart-append :
    (xs : List StreamEvent) (e : StreamEvent)
    → AreApart event_le xs
    → ((x : StreamEvent) → Memᴰ x xs → Apart event_le x e)
    → AreApart event_le (xs ++ e ∷ [])
AreApart-append [] e a f = (λ y m. elim m [ ], tt)
AreApart-append (x ∷ xs) e (a, rest) f = (
  λ y m. elim (mem-append y xs (e ∷ []) m) [
    | inl k ↦ a y k
    | inr k ↦ elim k [
      | Memᴰ.head q ↦ subst (λ z. Apart event_le x z) (sym q) (f x (Memᴰ.head refl))
      | Memᴰ.tail n ↦ elim n [ ]
    ]
  ],
  AreApart-append xs e rest (λ y m. f y (Memᴰ.tail m)),
)

module _ (k : Codec) (events : List StreamEvent) (b : Buffer) (e : StreamEvent)
    (s : IsKept k events b) (r : IsRead k e) where
  pub elsewhere :
      get e.event_id b ≡ none → (x : StreamEvent) → Memᴰ x (values b) → x.event_id ≢ e.event_id
  elsewhere h x m q = cc (sym h ∙ sym (ap (λ i. get i b) q) ∙ s.found x m)

  pub added :
      get e.event_id b ≡ none
      → (x : StreamEvent) → Memᴰ x (values (put e.event_id e b))
      → Memᴰ x (values b) ⊎ (x ≡ e)
  added h x m =
      elim (mem-append x (values b) (e ∷ [])
        (subst (λ z. Memᴰ x z) (values-put e.event_id e b h) m)) [
          | inl n ↦ inl n
          | inr n ↦ elim n [ Memᴰ.head q ↦ inr q | Memᴰ.tail o ↦ elim o [ ] ]
        ]

  pub kept_id :
      get e.event_id b ≡ none
      → (x : StreamEvent) → Memᴰ x (values b)
      → get x.event_id (put e.event_id e b) ≡ some x
  kept_id h x m = ground (
    arith,
    get-put e.event_id x.event_id e b,
    eq_iff e.event_id x.event_id,
    elsewhere h x m,
    s.found x m,
  )

  -- An event of a new id is added at the end.
  pub new-IsKept : get e.event_id b ≡ none → IsKept k (e ∷ events) (put e.event_id e b)
  new-IsKept h =
      let whole = values-put e.event_id e b h in
      record {
        apart =
            subst (AreApart event_le) (sym whole)
              (AreApart-append (values b) e s.apart (λ x m. event_le-Apart x e (elsewhere h x m)));
        sound = λ x m. elim (added h x m) [ inl n ↦ Memᴰ.tail (s.sound x n) | inr q ↦ Memᴰ.head q ];
        full = λ x m.
            subst (λ z. Memᴰ x z) (sym whole)
              (elim m [
                | Memᴰ.head q ↦ append-right x (values b) (e ∷ []) (Memᴰ.head q)
                | Memᴰ.tail n ↦ append-left x (values b) (e ∷ []) (s.full x n)
              ]);
        read =
            λ x m. elim (added h x m) [ inl n ↦ s.read x n | inr q ↦ subst (IsRead k) (sym q) r ];
        found = λ x m. elim (added h x m) [
          | inl n ↦ kept_id h x n
          | inr q ↦
              subst (λ (z : StreamEvent). get z.event_id (put e.event_id e b) ≡ some z) (sym q)
                (get-put_self e.event_id e b)
        ];
      }

  -- An event that is there already changes nothing.
  pub again-IsKept : get e.event_id b ≡ some e → IsKept k (e ∷ events) (put e.event_id e b)
  again-IsKept h = subst (IsKept k (e ∷ events)) (sym (put-get e.event_id e b h)) (record {
    apart = s.apart;
    sound = λ x m. Memᴰ.tail (s.sound x m);
    full = λ x m. elim m [
      | Memᴰ.head q ↦ subst (λ z. Memᴰ z (values b)) (sym q) (get-values e.event_id e b h)
      | Memᴰ.tail n ↦ s.full x n
    ];
    read = s.read;
    found = s.found;
  })
