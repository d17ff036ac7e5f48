-- ===== src/Crosswalk/Ambiguity.antt =====
-- When the rows of an actor name a single class and spec.
-- packages/warcraft-cli/src/warcraft_cli/crosswalk.py
use warcraft_cli.Base.{
  ◌≤◌, String, ◌≡◌, refl, true, false, Option, none, some, List, [], ◌∷◌, ◌++◌, arith, eq_iff, All,
  Bool-cases, inl, inr, ltb, length, length-append, ap₂, ◌||◌,
}
use warcraft_cli.Crosswalk.{
  Pair, has_pair, same_pair, same_text, signature, signatures, distinct_class_spec_signatures,
  any_marked, actor_spec_ambiguous,
}
use warcraft_cli.Json.{Fields}

same_text-eq : (a b : Option String) → same_text a b ≡ true → a ≡ b
same_text-eq none none h = refl
same_text-eq none (some b) h = absurd (ground arith)
same_text-eq (some a) none h = absurd (ground arith)
same_text-eq (some a) (some b) h = ground (arith, eq_iff a b)

same_pair-eq : (p q : Pair) → same_pair p q ≡ true → p ≡ q
same_pair-eq (a, b) (c, d) h =
    ap₂ (λ x y. (x, y)) (same_text-eq a c (ground arith)) (same_text-eq b d (ground arith))

signatures-length :
    (actors : List Fields) (seen : List Pair) → length seen ≤ length (signatures actors seen)
unfolding signatures
signatures-length [] seen = omega arith
signatures-length (actor ∷ actors) seen = elim (Bool-cases (has_pair (signature actor) seen)) [
  | inl known ↦ rw (known, signatures) (signatures-length actors seen)
  | inr new ↦
      rw (new, signatures)
        (omega (
          arith,
          signatures-length actors (seen ++ signature actor ∷ []),
          length-append seen (signature actor ∷ []),
        ))
]

signatures-one :
    (actors : List Fields) (s : Pair)
    → length (signatures actors (s ∷ [])) ≤ 1
    → All (λ a. signature a ≡ s) actors
unfolding signatures has_pair
signatures-one [] s h = tt
signatures-one (actor ∷ actors) s h = elim (Bool-cases (same_pair (signature actor) s || false)) [
  | inl known ↦ (
    same_pair-eq (signature actor) s (ground arith),
    signatures-one actors s (rw (known, signatures) at h),
  )
  | inr new ↦ absurd (
      omega
        (arith, (rw (new, signatures) at h), signatures-length actors (s ∷ signature actor ∷ [])))
]

-- When an actor's rows are not ambiguous, each of them names the class and the spec that the first one
-- names, and none is marked as ambiguous.
pub actor_spec_ambiguous_lem :
    (actor : Fields) (actors : List Fields)
    → actor_spec_ambiguous (actor ∷ actors) ≡ false
    → All (λ a. signature a ≡ signature actor) actors × (any_marked (actor ∷ actors) ≡ false)
unfolding actor_spec_ambiguous distinct_class_spec_signatures signatures has_pair
actor_spec_ambiguous_lem actor actors h =
    elim (Bool-cases (ltb 1 (length (signatures actors (signature actor ∷ []))))) [
      | inl many ↦ absurd (ground (arith, (rw (many, actor_spec_ambiguous) at h)))
      | inr one ↦ (
        signatures-one actors (signature actor) (ground arith),
        (rw (one, actor_spec_ambiguous) at h),
      )
    ]
