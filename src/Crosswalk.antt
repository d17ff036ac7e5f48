-- ===== src/Crosswalk.antt =====
-- Joining a report's actor to a profile: whether the class and spec of the two agree, and whether the
-- rows of one actor name a single one.
-- packages/warcraft-cli/src/warcraft_cli/crosswalk.py
pub mod Agreement
pub mod Ambiguity
use warcraft_cli.Base.{
  String, Bool, true, false, not, ◌&&◌, ◌||◌, Option, none, some, List, [], ◌∷◌, ◌++◌, ◌==◌,
  is_some, length, ltb, if◌then◌else◌,
}
use warcraft_cli.Json.{Value, str, dict, Fields, lookup}

-- A class and a spec, each where it is known.
abbrev pub Pair : Type 0
Pair = Option String × Option String

abbrev pub text_of : Option Value → Option String
text_of (some (str t)) = some t
text_of _ = none

abbrev pub pair_in : Option Value → Pair
pair_in (some (dict identity)) =
    (text_of (lookup "actor_class" identity), text_of (lookup "spec" identity))
pair_in _ = (none, none)

-- `_identity_pair`
unfoldable pub identity_pair : Option Value → Pair
identity_pair (some (dict d)) = pair_in (lookup "identity" d)
identity_pair _ = (none, none)

pub record Reconciled : Type 0 where
  pub comparable : Bool
  pub agree : Option Bool
  pub class_agree : Option Bool
  pub spec_agree : Option Bool
  pub reasons : List String

-- Whether two texts are equal, where both are known.
abbrev pub agreement : Option String → Option String → Option Bool
agreement (some a) (some b) = some (a == b)
agreement _ _ = none

abbrev pub reason_for : String → Option Bool → List String
reason_for reason (some false) = reason ∷ []
reason_for reason _ = []

abbrev pub agrees : List String → Option Bool → Option Bool → Option Bool
agrees [] (some true) (some true) = some true
agrees [] _ _ = none
agrees (reason ∷ reasons) _ _ = some false

abbrev pub reconcile_pairs : Pair → Pair → Reconciled
reconcile_pairs (log_class, log_spec) (profile_class, profile_spec) =
    let class_agree = agreement log_class profile_class in
    let spec_agree = agreement log_spec profile_spec in
    let reasons =
      reason_for "class_mismatch" class_agree ++ reason_for "spec_mismatch" spec_agree in
    record {
      comparable = is_some class_agree || is_some spec_agree;
      agree = agrees reasons class_agree spec_agree;
      class_agree = class_agree;
      spec_agree = spec_agree;
      reasons = reasons;
    }

unfoldable pub reconcile_class_spec : Option Value → Option Value → Reconciled
reconcile_class_spec log_identity profile_identity =
    reconcile_pairs (identity_pair log_identity) (identity_pair profile_identity)

abbrev pub same_text : Option String → Option String → Bool
same_text none none = true
same_text (some a) (some b) = a == b
same_text _ _ = false

abbrev pub same_pair : Pair → Pair → Bool
same_pair (a, b) (c, d) = same_text a c && same_text b d

unfoldable pub has_pair : Pair → List Pair → Bool
has_pair p [] = false
has_pair p (q ∷ qs) = same_pair p q || has_pair p qs

-- The signature of an actor's row.
abbrev pub signature : Fields → Pair
signature actor = identity_pair (lookup "class_spec_identity" actor)

-- The loop of `distinct_class_spec_signatures`, from the signatures seen.
unfoldable pub signatures : List Fields → List Pair → List Pair
signatures [] seen = seen
signatures (actor ∷ actors) seen =
    signatures actors
      (if has_pair (signature actor) seen then seen else seen ++ signature actor ∷ [])

unfoldable pub distinct_class_spec_signatures : List Fields → List Pair
distinct_class_spec_signatures actors = signatures actors []

abbrev pub is_ambiguous_status : Option Value → Bool
is_ambiguous_status (some (str status)) = status == "ambiguous"
is_ambiguous_status _ = false

abbrev pub is_marked : Option Value → Bool
is_marked (some (dict d)) = is_ambiguous_status (lookup "status" d)
is_marked _ = false

-- Some row is marked as ambiguous.
unfoldable pub any_marked : List Fields → Bool
any_marked [] = false
any_marked (actor ∷ actors) = is_marked (lookup "class_spec_identity" actor) || any_marked actors

unfoldable pub actor_spec_ambiguous : List Fields → Bool
actor_spec_ambiguous actors =
    if ltb 1 (length (distinct_class_spec_signatures actors)) then true else any_marked actors
