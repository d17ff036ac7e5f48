-- ===== src/Crosswalk/Agreement.antt =====
-- What `reconcile_class_spec` says, in terms of the two sides' classes and specs.
-- packages/warcraft-cli/src/warcraft_cli/crosswalk.py
use warcraft_cli.Base.{
  String, ◌≡◌, ◌≢◌, ◌↔◌, ◌⊎◌, inl, inr, refl, ◌++◌, Bool, true, false, Option, none, some, arith,
  eq_iff,
}
use warcraft_cli.Crosswalk.{
  Pair, reconcile_pairs, agreement, agrees, reason_for, identity_pair, reconcile_class_spec,
}
use warcraft_cli.Json.{Value}

-- Both texts are known, and differ.
abbrev pub Differ : Option String → Option String → Type 0
Differ a b = (x : String) × (y : String) × (a ≡ some x) × (b ≡ some y) × (x ≢ y)

-- Both are known, and equal.
abbrev pub Match : Option String → Option String → Type 0
Match a b = (x : String) × (a ≡ some x) × (b ≡ some x)

agreement-true : (a b : Option String) → (agreement a b ≡ some true) ↔ Match a b
agreement-true none b = (λ e. absurd (ground arith), λ m. absurd (ground (arith, m.1)))
agreement-true (some a) none = (λ e. absurd (ground arith), λ m. absurd (ground (arith, m.2)))
agreement-true (some a) (some b) =
    (λ e. (a, refl, ground (arith, eq_iff a b)), λ m. ground (arith, eq_iff a b, m.1, m.2))

agreement-false : (a b : Option String) → (agreement a b ≡ some false) ↔ Differ a b
agreement-false none b = (λ e. absurd (ground arith), λ m. absurd (ground (arith, m.2)))
agreement-false (some a) none = (λ e. absurd (ground arith), λ m. absurd (ground (arith, m.3)))
agreement-false (some a) (some b) = (
  λ e. (a, b, refl, refl, λ s. ground (arith, eq_iff a b)),
  λ m. ground (arith, eq_iff a b, m.2, m.3, m.4),
)

abbrev verdict : Option Bool → Option Bool → Option Bool
verdict c s = agrees (reason_for "class_mismatch" c ++ reason_for "spec_mismatch" s) c s

verdict_lem :
    (c s : Option Bool)
    → ((verdict c s ≡ some true) ↔ ((c ≡ some true) × (s ≡ some true)))
      × ((verdict c s ≡ some false) ↔ ((c ≡ some false) ⊎ (s ≡ some false)))
verdict_lem none none = (ground arith, ground arith)
verdict_lem none (some true) = (ground arith, ground arith)
verdict_lem none (some false) = (ground arith, ground arith)
verdict_lem (some true) none = (ground arith, ground arith)
verdict_lem (some true) (some true) = (ground arith, ground arith)
verdict_lem (some true) (some false) = (ground arith, ground arith)
verdict_lem (some false) s = (ground arith, ground arith)

verdicts :
    (log profile : Pair)
    → (((reconcile_pairs log profile).agree ≡ some true)
        ↔ (Match log.0 profile.0 × Match log.1 profile.1))
      × (((reconcile_pairs log profile).agree ≡ some false)
          ↔ (Differ log.0 profile.0 ⊎ Differ log.1 profile.1))
verdicts (a, b) (c, d) =
    let ((full, full'), (conflict, conflict')) = verdict_lem (agreement a c) (agreement b d) in
    let (class_true, class_true') = agreement-true a c in
    let (spec_true, spec_true') = agreement-true b d in
    let (class_false, class_false') = agreement-false a c in
    let (spec_false, spec_false') = agreement-false b d in
    (
      (
        λ e. let (x, y) = full e in (class_true x, spec_true y),
        λ (x, y). full' (class_true' x, spec_true' y),
      ),
      (
        λ e. elim (conflict e) [ inl x ↦ inl (class_false x) | inr y ↦ inr (spec_false y) ],
        λ e. conflict' (elim e [ inl x ↦ inl (class_false' x) | inr y ↦ inr (spec_false' y) ]),
      ),
    )

-- Two identity blocks agree exactly when the class is known on both sides and equal, and the spec too;
-- they disagree exactly when one of the two is known on both sides and differs. Otherwise, and only
-- then, nothing is claimed.
pub reconcile_class_spec_lem :
    (log profile : Option Value)
    → (((reconcile_class_spec log profile).agree ≡ some true) ↔ (
        Match (identity_pair log).0 (identity_pair profile).0
        × Match (identity_pair log).1 (identity_pair profile).1))
      × (((reconcile_class_spec log profile).agree ≡ some false) ↔ (
          Differ (identity_pair log).0 (identity_pair profile).0
          ⊎ Differ (identity_pair log).1 (identity_pair profile).1))
unfolding reconcile_class_spec
reconcile_class_spec_lem log profile = verdicts (identity_pair log) (identity_pair profile)
