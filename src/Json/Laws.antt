-- ===== src/Json/Laws.antt =====
-- What `lookup` sees after `insert` and `merge`.
use warcraft_cli.Base.{
  String, ◌≡◌, ◌≢◌, refl, Bool, none, some, inl, inr, Bool-cases, arith, ◌==◌, eq_iff, eq_refl,
  if◌then◌else◌,
}
use warcraft_cli.Json.{Value, Fields, end, field, lookup, insert, merge, restrict, IsUnique}

pub lookup-insert :
    (k j : String) (v : Value) (d : Fields)
    → lookup j (insert k v d) ≡ (if k == j then some v else lookup j d)
unfolding lookup insert
lookup-insert k j v end = refl
lookup-insert k j v (field i w d) =
    ground (arith, eq_iff k j, eq_iff i k, eq_iff i j, lookup-insert k j v d)

pub lookup-insert_self : (k : String) (v : Value) (d : Fields) → lookup k (insert k v d) ≡ some v
lookup-insert_self k v d = simp (lookup-insert, eq_refl)

pub lookup-insert_ne :
    (k j : String) (v : Value) (d : Fields) → k ≢ j → lookup j (insert k v d) ≡ lookup j d
lookup-insert_ne k j v d h = ground (arith, lookup-insert k j v d, eq_iff k j)

-- Writing a key's own value back changes nothing.
pub insert-lookup : (k : String) (v : Value) (d : Fields) → lookup k d ≡ some v → insert k v d ≡ d
unfolding lookup insert
insert-lookup k v end h = ground arith
insert-lookup k v (field j w d) h = ground (arith, insert-lookup k v d)

-- The later dict wins, key by key.
pub lookup-merge :
    (j : String) (d e : Fields)
    → IsUnique e
    → lookup j (merge d e) ≡ elim (lookup j e) [ none ↦ lookup j d | some v ↦ some v ]
unfolding lookup merge
lookup-merge j d end u = refl
lookup-merge j d (field k v e) u =
    rw (lookup-merge j (insert k v d) e u.1)
      (ground (arith, lookup-insert k j v d, eq_iff k j, u.0))

pub lookup-restrict :
    (test : String → Bool) (j : String) (d : Fields)
    → lookup j (restrict test d) ≡ (if test j then lookup j d else none)
unfolding lookup restrict
lookup-restrict test j end = ground arith
lookup-restrict test j (field k v d) = ground (arith, lookup-restrict test j d, eq_iff k j)

pub IsUnique-restrict :
    (test : String → Bool) (d : Fields) → IsUnique d → IsUnique (restrict test d)
unfolding restrict
IsUnique-restrict test end u = tt
IsUnique-restrict test (field k v d) u = elim (Bool-cases (test k)) [
  | inl e ↦ rw e (rw (lookup-restrict test k d) (rw (e, u.0) refl), IsUnique-restrict test d u.1)
  | inr e ↦ rw e (IsUnique-restrict test d u.1)
]
