-- ===== src/Streaming/Deduplicated.antt =====
-- streaming.py: what StreamingIngress accepts of a sequence of calls.
use inforsight.Common.{
  ℕ, ◌+◌, String, Bool, true, false, not, ◌&&◌, ◌||◌, ◌≡◌, refl, ap, ◌∙◌, inl, inr, Bool-cases,
  Option-cases, Option, none, some, List, [], ◌∷◌, str_eq, eq_iff, arith,
}
use inforsight.Streaming.Ingress.{
  StreamEvent, accepted, duplicate, dead_letter, IngressResult, is_topic, Validators, Key, key_of,
  same_key, is_seen, ingest, ingest_all,
}

abbrev pub is_accepted : IngressResult → Bool
is_accepted r = elim r.status [ accepted ↦ true | duplicate ↦ false | dead_letter ↦ false ]

abbrev pub counted : Bool → ℕ
counted true = 1
counted false = 0

-- How many of the results accept an event of the key.
abbrev pub count_accepted : Key → List (StreamEvent × IngressResult) → ℕ
count_accepted key [] = 0
count_accepted key ((e, r) ∷ results) =
    counted (is_accepted r && same_key key (key_of e)) + count_accepted key results

abbrev pub is_none {ℓ} : {A : Type ℓ} → Option A → Bool
is_none none = true
is_none (some _) = false

-- A call of the key on a known topic with no error.
unfoldable pub any_valid : Validators → Key → List (String × StreamEvent) → Bool
unfolding is_topic
any_valid errors key [] = false
any_valid errors key ((topic, e) ∷ calls) =
    (is_topic topic && (is_none (errors topic e) && same_key key (key_of e)))
    || any_valid errors key calls

same_key-eq : (a b : Key) → same_key a b ≡ true → a ≡ b
same_key-eq (a, c) (b, d) h =
    let (p, q) = parts (str_eq a b) (str_eq c d) h in
    λ i. (((eq_iff a b).0 p) i, ((eq_iff c d).0 q) i)
  where
    parts : (x y : Bool) → x && y ≡ true → (x ≡ true) × (y ≡ true)
    parts x y k = ground arith

-- The four ways of one call.
data Answer (errors : Validators) (topic : String) (e : StreamEvent) (seen : List Key)
    : IngressResult × List Key → Type 0 where
  refused :
      {r : IngressResult}
      → (is_topic topic && is_none (errors topic e)) ≡ false
      → is_accepted r ≡ false
      → Answer errors topic e seen (r, seen)
  repeated :
      {r : IngressResult}
      → (is_topic topic && is_none (errors topic e)) ≡ true
      → is_seen (key_of e) seen ≡ true
      → is_accepted r ≡ false
      → Answer errors topic e seen (r, seen)
  taken :
      {r : IngressResult}
      → (is_topic topic && is_none (errors topic e)) ≡ true
      → is_seen (key_of e) seen ≡ false
      → is_accepted r ≡ true
      → Answer errors topic e seen (r, key_of e ∷ seen)

ingest-Answer :
    (errors : Validators) (topic : String) (e : StreamEvent) (seen : List Key)
    → Answer errors topic e seen (ingest errors topic e seen)
unfolding ingest
ingest-Answer errors topic e seen = elim (Bool-cases (is_topic topic)) [
  | inr t ↦ rw t (refused (rw t refl) refl)
  | inl t ↦ elim (Option-cases (errors topic e)) [
    | inr (message, q) ↦ rw (t, q) (refused (rw (t, q) refl) refl)
    | inl q ↦ elim (Bool-cases (is_seen (key_of e) seen)) [
      | inl s ↦ rw (t, q, s) (repeated (rw (t, q) refl) s refl)
      | inr s ↦ rw (t, q, s) (taken (rw (t, q) refl) s refl)
    ]
  ]
]

-- One round of the count, by the answer.
module _ (errors : Validators) (key : Key) (topic : String) (e : StreamEvent)
    (seen : List Key) where
  same_seen : same_key key (key_of e) ≡ true → is_seen key seen ≡ is_seen (key_of e) seen
  same_seen h = ap (λ z. is_seen z seen) (same_key-eq key (key_of e) h)

  -- What is added by the call, and what is left for the rest.
  Answer-count :
      (later : Bool) {out : IngressResult × List Key}
      → Answer errors topic e seen out
      → counted (is_accepted out.0 && same_key key (key_of e))
          + counted (not (is_seen key out.1) && later)
        ≡ counted (
            not (is_seen key seen)
            && ((is_topic topic && (is_none (errors topic e) && same_key key (key_of e))) || later))
  Answer-count later (refused {r} v a) =
      by_bits _ _ (same_key key (key_of e)) (is_seen key seen) later _ v a
    where
      by_bits :
          (t n s k l a : Bool)
          → t && n ≡ false
          → a ≡ false
          → counted (a && s) + counted (not k && l) ≡ counted (not k && ((t && (n && s)) || l))
      by_bits t n s k l a h j = ground arith
  Answer-count later (repeated {r} v s a) =
      by_bits _ _ (same_key key (key_of e)) (is_seen key seen) later _ v a (λ h. same_seen h ∙ s)
    where
      by_bits :
          (t n s k l a : Bool)
          → t && n ≡ true
          → a ≡ false
          → (s ≡ true → k ≡ true)
          → counted (a && s) + counted (not k && l) ≡ counted (not k && ((t && (n && s)) || l))
      by_bits t n s k l a h j f = ground (arith, f)
  Answer-count later (taken {r} v s a) =
      by_bits _ _ (same_key key (key_of e)) (is_seen key seen) later _ v a (λ h. same_seen h ∙ s)
    where
      by_bits :
          (t n s k l a : Bool)
          → t && n ≡ true
          → a ≡ true
          → (s ≡ true → k ≡ false)
          → counted (a && s) + counted (not (s || k) && l)
            ≡ counted (not k && ((t && (n && s)) || l))
      by_bits t n s k l a h j f = ground (arith, f)

count-ingest_all :
    (errors : Validators) (key : Key) (calls : List (String × StreamEvent)) (seen : List Key)
    → count_accepted key (ingest_all errors calls seen)
      ≡ counted (not (is_seen key seen) && any_valid errors key calls)
unfolding ingest_all any_valid
count-ingest_all errors key [] seen = ground arith
count-ingest_all errors key ((topic, e) ∷ calls) seen =
    ap (λ n. counted (is_accepted (ingest errors topic e seen).0 && same_key key (key_of e)) + n)
      (count-ingest_all errors key calls (ingest errors topic e seen).1)
    ∙ Answer-count errors key topic e seen (any_valid errors key calls)
        (ingest-Answer errors topic e seen)

-- However a new ingress is called, an event id and idempotency key are accepted exactly once if
-- some call with them is on a known topic and passes its validator, and never otherwise.
pub ingest_all-once :
    (errors : Validators) (key : Key) (calls : List (String × StreamEvent))
    → count_accepted key (ingest_all errors calls []) ≡ counted (any_valid errors key calls)
ingest_all-once errors key calls = count-ingest_all errors key calls []
