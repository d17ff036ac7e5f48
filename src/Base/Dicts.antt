-- ===== src/Base/Dicts.antt =====
-- A dict keeps what is set last.
use mathlib.Core.Path.{◌≡◌, refl, sym, ◌∙◌}
use mathlib.Core.Bool.{true}
use mathlib.Core.List.{List, [], ◌∷◌}
use mathlib.Core.Logic.{inl, inr}
use mathlib.Core.Option.{some}
use native.Mathlib.Omega.{arith}
use text.Mathlib.Text.{◌==◌}
use text.Mathlib.TextEquality.{eq_iff}
use text.Mathlib.TextPositions.{eq_refl}
use Prim.Native.String.{String}
use warcraft_cli.Base.Tests.{Bool-cases, if◌then◌else◌}
use warcraft_cli.Base.Texts.{value_at, set_at}

pub value_at-set_at :
    {V : Type 0} (k j : String) (v : V) (d : List (String × V))
    → value_at k (set_at j v d) ≡ (if j == k then some v else value_at k d)
unfolding value_at set_at
value_at-set_at k j v [] = refl
value_at-set_at k j v ((i, w) ∷ d) = elim (Bool-cases (i == j)) [
  | inl same ↦
      rw ((eq_iff i j).0 same, eq_refl j)
        (elim (Bool-cases (j == k)) [ inl k_is_j ↦ rw k_is_j refl | inr differs ↦ rw differs refl ])
  | inr other ↦ elim (Bool-cases (i == k)) [
    | inr apart ↦ rw (other, apart, value_at-set_at k j v d) refl
    | inl k_is_i ↦ elim (Bool-cases (j == k)) [
      | inr differs ↦ rw (other, k_is_i, differs) refl
      | inl k_is_j ↦
          let i_is_j : i == j ≡ true =
            (eq_iff i j).1 ((eq_iff i k).0 k_is_i ∙ sym ((eq_iff j k).0 k_is_j)) in
          absurd (ground arith)
    ]
  ]
]
