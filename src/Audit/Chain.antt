-- ===== src/Audit/Chain.antt =====
-- audit/verifier.py: the hash chain of a verified log, and that it cannot be altered unseen.
use mathlib.Core.Path.{subst}
use Prim.Native.String.{◌++◌, len, slice}
use text.Mathlib.TextPositions.{len-append, slice-append_left, slice-append_right}
use mathlib.Core.List.{Memᴰ}
use inforsight.Common.{
  ℕ, suc, ◌+◌, String, Bool, false, not, ◌≡◌, ◌≢◌, refl, sym, ap, ◌∙◌, Option, none, some, List, [],
  ◌∷◌, length, ◌⊎◌, inl, inr, arith, Bool-cases, eq_iff, str_eq,
}
use inforsight.Common.Result.{Result, ok, err, ◌>>=◌, ◌>>◌, refuse_if, chained}
use inforsight.Audit.Entries.{RawEntry, Hashing, preimage}
use inforsight.Audit.Verifier.{
  Violation, Progress, Scorecard, start, check_order, check_shape, check_chain, check_governance,
  count_entry, verify_entry, verify_from, verify_records, is_text, has_number, or_empty,
}

-- Each entry names the hash before it and carries its own, from one hash to another.
abbrev pub Chained : Hashing → String → List RawEntry → String → Type 0
Chained h hash [] tip = hash ≡ tip
Chained h hash (e ∷ es) tip =
    (e.payload.prev_hash ≡ some hash)
    × (e.entry_hash ≡ some (h.compute_sha256 (preimage h hash e.payload)))
    × Chained h (h.compute_sha256 (preimage h hash e.payload)) es tip

pub is_text-eq : (s : String) (o : Option String) → not (is_text s o) ≡ false → o ≡ some s
is_text-eq s none h = cc
is_text-eq s (some t) h = ap some ((eq_iff t s).0 (ground (arith, h)))

pub has_number-eq : (n : ℕ) (o : Option ℕ) → not (has_number n o) ≡ false → o ≡ some n
has_number-eq n o h = ground arith

both_passed :
    (b c : Bool) (x y : Violation)
    → (refuse_if b x >> refuse_if c y) ≡ ok tt
    → (b ≡ false) × (c ≡ false)
both_passed b c x y h = ground arith

-- A pass that returned: each of its steps did.
all_passed :
    {A : Type 0} {q : Progress} (a : Result Violation (Unit {0})) (b : Result Violation A)
    → (c d : Result Violation (Unit {0})) (f : A → Progress) → (do a; x ← b; c; d; ok (f x)) ≡ ok q
    → (a ≡ ok tt) × (c ≡ ok tt) × (d ≡ ok tt) × (x : A) × (b ≡ ok x) × (f x ≡ q)
all_passed (ok _) (ok x) (ok _) (ok _) f h = (refl, refl, refl, x, refl, cc)
all_passed (err _) b c d f h = cc
all_passed (ok _) (err _) c d f h = cc
all_passed (ok _) (ok x) (err _) d f h = cc
all_passed (ok _) (ok x) (ok _) (err _) f h = cc

-- What holds of an entry that passes.
pub record IsPassed (h : Hashing) (index : ℕ) (e : RawEntry) (p q : Progress) : Type 0 where
  pub numbered : e.payload.sequence_number ≡ some index
  pub linked : e.payload.prev_hash ≡ some p.prev_hash
  pub hashed : e.entry_hash ≡ some (h.compute_sha256 (preimage h p.prev_hash e.payload))
  pub tip : q.prev_hash ≡ h.compute_sha256 (preimage h p.prev_hash e.payload)
  pub governed : check_governance e.payload ≡ ok tt

pub verify_entry-IsPassed :
    (h : Hashing) (index : ℕ) (e : RawEntry) (p q : Progress)
    → verify_entry h index e p ≡ ok q
    → IsPassed h index e p q
unfolding verify_entry count_entry
verify_entry-IsPassed h index e p q v =
    let (shape, chain, governed, now, _, same) =
      all_passed (check_shape index e)
        (check_order (h.parse_time (or_empty e.payload.timestamp)) p.prev_ts) (check_chain h e p)
        (check_governance e.payload) (λ now. count_entry e now p) v in
    let (numbered, _) = both_passed _ _ _ _ shape in
    let (linked, hashed) = both_passed _ _ _ _ chain in
    let hash = is_text-eq _ _ hashed in
    record {
      numbered = has_number-eq _ _ numbered;
      linked = is_text-eq _ _ linked;
      hashed = hash;
      tip = sym (ap (λ r. r.prev_hash) same) ∙ ap or_empty hash;
      governed = governed;
    }

-- The loop, entry by entry.
pub verify_from-cons :
    (h : Hashing) (index : ℕ) (e : RawEntry) (es : List RawEntry) (p p' : Progress)
    → verify_from h index (e ∷ es) p ≡ ok p'
    → (q : Progress) × (verify_entry h index e p ≡ ok q) × (verify_from h (suc index) es q ≡ ok p')
unfolding verify_from
verify_from-cons h index e es p p' v = go (verify_entry h index e p) refl v
  where
    go :
        (r : Result Violation Progress)
        → verify_entry h index e p ≡ r
        → (elim r [
          | ok q ↦ verify_from h (suc index) es q
          | err x ↦ err (e.payload.sequence_number, x)
        ])
          ≡ ok p'
        → (q : Progress) × (verify_entry h index e p ≡ ok q)
          × (verify_from h (suc index) es q ≡ ok p')
    go (ok q) k w = (q, k, w)
    go (err x) k w = cc

pub verify_from-Chained :
    (h : Hashing) (index : ℕ) (es : List RawEntry) (p p' : Progress)
    → verify_from h index es p ≡ ok p'
    → Chained h p.prev_hash es p'.prev_hash
unfolding verify_from
verify_from-Chained h index [] p p' v = let same : p ≡ p' = cc v in ap (λ r. r.prev_hash) same
verify_from-Chained h index (e ∷ es) p p' v =
    let (q, k, w) = verify_from-cons h index e es p p' v in
    let passed = verify_entry-IsPassed h index e p q k in
    (
      passed.linked,
      passed.hashed,
      subst (λ t. Chained h t es p'.prev_hash) passed.tip
          (verify_from-Chained h (suc index) es q p' w),
    )

pub verify_records-counts :
    (h : Hashing) (es : List RawEntry) (c : Scorecard)
    → verify_records h es ≡ ok c
    → verify_from h 0 es (start h) ≡ ok c.counts
unfolding verify_records
verify_records-counts h es c v =
    let (p, k, same) = chained (verify_from h 0 es (start h)) _ v in k ∙ ap (λ r. counts_of r) same
  where
    counts_of : Result (Option ℕ × Violation) Scorecard → Result (Option ℕ × Violation) Progress
    counts_of (ok x) = ok x.counts
    counts_of (err x) = err x

verify_records-Chained :
    (h : Hashing) (es : List RawEntry) (c : Scorecard)
    → verify_records h es ≡ ok c
    → Chained h h.genesis_hash es c.counts.prev_hash
verify_records-Chained h es c v =
    verify_from-Chained h 0 es (start h) c.counts (verify_records-counts h es c v)

-- Two texts of one digest.
abbrev pub Collision : Hashing → Type 0
Collision h = (s : String) × (t : String) × (s ≢ t) × (h.compute_sha256 s ≡ h.compute_sha256 t)

same_cons :
    (e f : RawEntry) (es fs : List RawEntry)
    → e.payload ≡ f.payload
    → e.entry_hash ≡ f.entry_hash
    → es ≡ fs
    → e ∷ es ≡ f ∷ fs
same_cons e f es fs p q r =
    rw r (ap (λ x. x ∷ fs) (λ i. record { payload = p i; entry_hash = q i }))

-- Among the entries of two logs, canonical JSON determines its payload.
abbrev pub IsFaithful : Hashing → List RawEntry → List RawEntry → Type 0
IsFaithful h es fs =
    (e f : RawEntry)
    → Memᴰ e es
    → Memᴰ f fs
    → h.canonical_json_dumps e.payload ≡ h.canonical_json_dumps f.payload
    → e.payload ≡ f.payload

-- All digests are of one length, the genesis hash too.
abbrev pub IsSized : Hashing → Type 0
IsSized h = (s : String) → len (h.compute_sha256 s) ≡ len h.genesis_hash

-- What follows two texts of one length can be taken off.
cancel_left : (s t x y : String) → len s ≡ len t → s ++ x ≡ t ++ y → (s ≡ t) × (x ≡ y)
cancel_left s t x y n h =
    let front = sym (slice-append_left s x) ∙ (λ i. slice (h i) 0 (n i)) ∙ slice-append_left t y in
    let whole : len s + len x ≡ len t + len y = sym (len-append s x) ∙ ap len h ∙ len-append t y in
    (
      front,
      sym (slice-append_right s x) ∙ (λ i. slice (h i) (n i) (whole i)) ∙ slice-append_right t y,
    )

module _ (h : Hashing) (sized : IsSized h) where
  -- One digest has one preimage, or there is a collision.
  same_preimage : (s t : String) → h.compute_sha256 s ≡ h.compute_sha256 t → (s ≡ t) ⊎ Collision h
  same_preimage s t k = elim (Bool-cases (str_eq s t)) [
    | inl b ↦ inl ((eq_iff s t).0 b)
    | inr b ↦ inr (s, t, (λ e. let y = (eq_iff s t).1 e in cc), k)
  ]

  Chained-same :
      (tip : String) (es fs : List RawEntry) (s t : String)
      → IsFaithful h es fs
      → len s ≡ len t
      → length es ≡ length fs
      → Chained h s es tip
      → Chained h t fs tip
      → ((s ≡ t) × (es ≡ fs)) ⊎ Collision h
  Chained-same tip [] [] s t p z n c d = inl (c ∙ sym d, refl)
  Chained-same tip [] (f ∷ fs) s t p z n c d = cc
  Chained-same tip (e ∷ es) [] s t p z n c d = cc
  Chained-same tip (e ∷ es) (f ∷ fs) s t p z n (l, k, c) (l', k', d) =
      elim (Chained-same tip es fs _ _ (λ x y k m. p x y (Memᴰ.tail k) (Memᴰ.tail m))
        (sized _ ∙ sym (sized _)) (ground (arith, n)) c d) [
          | inr x ↦ inr x
          | inl (hash, rest) ↦ elim (same_preimage _ _ hash) [
            | inr x ↦ inr x
            | inl pre ↦
                let (at, json) = cancel_left s t _ _ z pre in
                let same = p e f (Memᴰ.head refl) (Memᴰ.head refl) json in
                inl (at, same_cons e f es fs same (k ∙ ap some hash ∙ sym k') rest)
          ]
        ]

  -- Where digests are of one length and canonical JSON determines its payload among the entries,
  -- two logs of one length that verify to one tip hash are the same, or else there are two texts
  -- of one digest: no entry can be altered, swapped or replaced without a new tip.
  pub verify_records-same :
      (es fs : List RawEntry) (c d : Scorecard)
      → IsFaithful h es fs
      → verify_records h es ≡ ok c
      → verify_records h fs ≡ ok d
      → length es ≡ length fs
      → c.counts.prev_hash ≡ d.counts.prev_hash
      → (es ≡ fs) ⊎ Collision h
  verify_records-same es fs c d p v w n t =
      elim (Chained-same c.counts.prev_hash es fs h.genesis_hash h.genesis_hash p refl n
        (verify_records-Chained h es c v)
        (subst (Chained h h.genesis_hash fs) (sym t) (verify_records-Chained h fs d w))) [
          | inl (_, same) ↦ inl same
          | inr x ↦ inr x
        ]
