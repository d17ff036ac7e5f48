-- ===== src/Tests/Crosswalk.antt =====
-- A report's mage, and the profile of the same character.
use warcraft_cli.Base.{String, ◌≡◌, ◌↔◌, ◌⊎◌, refl, true, false, some, [], ◌∷◌, All}
use warcraft_cli.Crosswalk.{
  reconcile_class_spec, identity_pair, signature, signatures, has_pair,
  distinct_class_spec_signatures, any_marked, actor_spec_ambiguous,
}
use warcraft_cli.Crosswalk.Agreement.{Match, Differ, reconcile_class_spec_lem}
use warcraft_cli.Crosswalk.Ambiguity.{actor_spec_ambiguous_lem}
use warcraft_cli.Json.{Value, str, dict, Fields, end, field, lookup}

abbrev mage : String → Value
mage spec =
    dict
      (field "identity" (dict (field "actor_class" (str "mage") (field "spec" (str spec) end))) end)

frost_conflict :
    (reconcile_class_spec (some (mage "frost")) (some (mage "fire"))).reasons ≡ "spec_mismatch" ∷ []
unfolding reconcile_class_spec identity_pair lookup
frost_conflict = refl

reconcile_class_spec_lem_example :
    (((reconcile_class_spec (some (mage "frost")) (some (mage "fire"))).agree ≡ some true) ↔ (
      Match (identity_pair (some (mage "frost"))).0 (identity_pair (some (mage "fire"))).0
      × Match (identity_pair (some (mage "frost"))).1 (identity_pair (some (mage "fire"))).1))
    × (((reconcile_class_spec (some (mage "frost")) (some (mage "fire"))).agree ≡ some false) ↔ (
        Differ (identity_pair (some (mage "frost"))).0 (identity_pair (some (mage "fire"))).0
        ⊎ Differ (identity_pair (some (mage "frost"))).1 (identity_pair (some (mage "fire"))).1))
reconcile_class_spec_lem_example =
    reconcile_class_spec_lem (some (mage "frost")) (some (mage "fire"))

abbrev row : Fields
row = field "role" (str "dps") (field "class_spec_identity" (mage "frost") end)

rows_single : actor_spec_ambiguous (row ∷ row ∷ []) ≡ false
unfolding actor_spec_ambiguous distinct_class_spec_signatures signatures has_pair any_marked
    identity_pair lookup
rows_single = refl

actor_spec_ambiguous_lem_example :
    All (λ a. signature a ≡ signature row) (row ∷ []) × (any_marked (row ∷ row ∷ []) ≡ false)
actor_spec_ambiguous_lem_example = actor_spec_ambiguous_lem row (row ∷ []) rows_single
