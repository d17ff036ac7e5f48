-- ===== src/Discovery/Pages.antt =====
-- When a page of rows comes out, and when a capped confidence is the provider's.
-- packages/warcraft-core/src/warcraft_core/discovery.py
use warcraft_cli.Base.{
  ℕ, ◌≤◌, ◌≢◌, ◌≡◌, refl, Bool, true, false, ◌⊎◌, inl, inr, Bool-cases, Option, none, some, List,
  arith, ltb, length,
}
use warcraft_cli.Discovery.{
  Confidence, high, medium, low, no_match, Answer, answered, take_to, total_of, page_of,
}
use warcraft_cli.Json.{ℤ, Fields}
use warcraft_cli.Discovery.Resolve.{cap_of, after_cap}

pub page_of_cases :
    (ranked : List Fields) (limit : ℤ) (total : Option ℕ)
    → (page_of ranked limit total ≡ none)
      ⊎ ((page_of ranked limit total
            ≡ some (record { rows = take_to limit ranked; total = total_of total ranked }))
          × (length ranked ≤ total_of total ranked))
unfolding page_of
page_of_cases ranked limit total = elim (Bool-cases (ltb (total_of total ranked) (length ranked))) [
  | inl few ↦ inl (rw few refl)
  | inr enough ↦ inr (rw enough refl, ground arith)
]

pub page_of-enough :
    (ranked : List Fields) (limit : ℤ) (total : Option ℕ)
    → length ranked ≤ total_of total ranked
    → page_of ranked limit total ≢ none
unfolding page_of
page_of-enough ranked limit total h e = ground arith

abbrev pub is_answered : Answer → Bool
is_answered (answered d) = true
is_answered _ = false

-- The stated confidence is the provider's, or its "high" lowered to "medium".
abbrev pub IsLowered : Confidence → Confidence → Type 0
IsLowered confidence stated = (stated ≡ confidence) ⊎ ((confidence ≡ high) × (stated ≡ medium))

pub cap_of-IsLowered :
    (o : Option Bool) (confidence : Confidence) (capped : Bool)
    → cap_of o confidence ≡ some capped
    → IsLowered confidence (after_cap confidence capped)
cap_of-IsLowered o high true e = inr (refl, refl)
cap_of-IsLowered o high false e = inl refl
cap_of-IsLowered o medium capped e = inl (ground arith)
cap_of-IsLowered o low capped e = inl (ground arith)
cap_of-IsLowered o no_match capped e = inl (ground arith)
