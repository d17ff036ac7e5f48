-- ===== src/Output/Paths.antt =====
-- Reading a dot path after writing one.
use warcraft_cli.Base.{
  String, ◌≡◌, ◌≢◌, refl, sym, ap, subst, ◌∙◌, some, List, [], ◌∷◌, arith, ◌==◌, eq_iff, Bool-cases,
  inl, inr,
}
use warcraft_cli.Json.{
  Value, Fields, null, bool, int, float, str, list, dict, lookup, insert, as_dict,
}
use warcraft_cli.Json.Laws.{lookup-insert_self, lookup-insert_ne, insert-lookup}
use warcraft_cli.Output.{extract, assign}

-- The value at the first key, and the walk from there.
extract_step :
    (k : String) (ks : List String) (d : Fields) (v : Value)
    → extract (k ∷ ks) (dict d) ≡ some v
    → (u : Value) × (lookup k d ≡ some u) × (extract ks u ≡ some v)
unfolding extract
extract_step k ks d v h = ground arith

extract_at :
    (k : String) (ks : List String) (d : Fields) (u : Value)
    → lookup k d ≡ some u
    → extract (k ∷ ks) (dict d) ≡ extract ks u
unfolding extract
extract_at k ks d u h = rw (h, extract)

-- Only a dict has a value at a path with a key.
extract_dict :
    (k : String) (ks : List String) (u v : Value)
    → extract (k ∷ ks) u ≡ some v
    → (d : Fields) × (u ≡ dict d)
unfolding extract
extract_dict k ks (dict d) v h = (d, refl)
extract_dict k ks null v h = absurd (ground arith)
extract_dict k ks (bool b) v h = absurd (ground arith)
extract_dict k ks (int n) v h = absurd (ground arith)
extract_dict k ks (float t) v h = absurd (ground arith)
extract_dict k ks (str s) v h = absurd (ground arith)
extract_dict k ks (list xs) v h = absurd (ground arith)

-- A written path reads back.
pub extract-assign_self :
    (k : String) (ks : List String) (v : Value) (d : Fields)
    → extract (k ∷ ks) (dict (assign (k ∷ ks) v d)) ≡ some v
unfolding assign
extract-assign_self k [] v d =
    extract_at k [] _ v (lookup-insert_self k v d) ∙ unfold extract in refl
extract-assign_self k (k' ∷ ks) v d =
    extract_at k (k' ∷ ks) _ _ (lookup-insert_self k _ d)
    ∙ extract-assign_self k' ks v (as_dict (lookup k d))

-- Writing a path's own value back changes nothing.
assign-extract :
    (k : String) (ks : List String) (w : Value) (d : Fields)
    → extract (k ∷ ks) (dict d) ≡ some w
    → assign (k ∷ ks) w d ≡ d
unfolding assign as_dict
assign-extract k [] w d h =
    let (u, at, here) = extract_step k [] d w h in
    insert-lookup k w d (unfold extract in ground arith)
assign-extract k (k' ∷ ks) w d h =
    let (u, at, here) = extract_step k (k' ∷ ks) d w h in
    let (e, is_e) = extract_dict k' ks u w here in
    let at_e : lookup k d ≡ some (dict e) = at ∙ ap some is_e in
    rw at_e (rw (assign-extract k' ks w e (rw is_e at here)) (insert-lookup k (dict e) d at_e))

-- A key's value is read through; the other keys are left as they are.
pub insert_at :
    (k : String) (js : List String) (u : Value) (F : Fields)
    → extract (k ∷ js) (dict (insert k u F)) ≡ extract js u
insert_at k js u F = extract_at k js (insert k u F) u (lookup-insert_self k u F)

pub insert_other :
    (k j : String) (js : List String) (u : Value) (F : Fields)
    → k ≢ j
    → extract (j ∷ js) (dict (insert k u F)) ≡ extract (j ∷ js) (dict F)
unfolding extract
insert_other k j js u F h = rw (lookup-insert_ne k j u F h, extract)

-- Where a dict has a value at a path, whatever has the same value there is a dict.
dict_too :
    (js : List String) (f v : Value) (e : Fields)
    → extract js f ≡ some v
    → extract js (dict e) ≡ some v
    → (g : Fields) × (f ≡ dict g)
dict_too [] f v e hf he = (e, unfold extract in ground arith)
dict_too (j ∷ js) f v e hf he = extract_dict j js f v hf

-- The three facts about the dicts that both walks enter.
entered :
    (k : String) (js : List String) (k' : String) (ks : List String) (v w : Value) (P F : Fields)
    → extract (k ∷ k' ∷ ks) (dict P) ≡ some w
    → extract (k ∷ js) (dict P) ≡ some v
    → extract (k ∷ js) (dict F) ≡ some v
    → (e : Fields) × (extract (k' ∷ ks) (dict e) ≡ some w)
      × (extract js (dict e) ≡ some v)
      × (extract js (dict (as_dict (lookup k F))) ≡ some v)
unfolding as_dict
entered k js k' ks v w P F hq hP hF =
    let (u, at, inner) = extract_step k (k' ∷ ks) P w hq in
    let (e, is_e) = extract_dict k' ks u w inner in
    let (f, at_f, inner_f) = extract_step k js F v hF in
    let there : extract js (dict e) ≡ some v =
      sym (extract_at k js P (dict e) (at ∙ ap some is_e)) ∙ hP in
    let (g, is_g) = dict_too js f v e inner_f there in
    (e, rw is_e at inner, there, rw (at_f, is_g) (rw is_g at inner_f))

same_dict :
    (P F : Fields) (v : Value) → extract [] (dict P) ≡ some v → extract [] (dict F) ≡ some v → P ≡ F
unfolding extract
same_dict P F v hP hF = ground arith

extract-nil : (d : Fields) → extract [] (dict d) ≡ some (dict d)
unfolding extract
extract-nil d = refl

one_key :
    (k : String) (w : Value) (P : Fields) → extract (k ∷ []) (dict P) ≡ some w → lookup k P ≡ some w
unfolding extract
one_key k w P h = ground arith

-- Dicts `P` and `F` agree on a path `p`; `F` keeps agreeing when `P`'s value at a path `q` is written.
pub extract-assign :
    (q p : List String) (v w : Value) (P F : Fields)
    → extract q (dict P) ≡ some w
    → extract p (dict P) ≡ some v
    → extract p (dict F) ≡ some v
    → extract p (dict (assign q w F)) ≡ some v
unfolding assign
extract-assign [] p v w P F hq hP hF = hF
extract-assign (k ∷ ks) [] v w P F hq hP hF =
    let same : assign (k ∷ ks) w F ≡ F =
      subst (λ d. assign (k ∷ ks) w d ≡ d) (same_dict P F v hP hF) (assign-extract k ks w P hq) in
    rw same hF
extract-assign (k ∷ []) (j ∷ js) v w P F hq hP hF = elim (Bool-cases (k == j)) [
  | inl e ↦
      let k_is_j = (eq_iff k j).0 e in
      rw (← k_is_j)
        (insert_at k js w F ∙ sym (extract_at k js P w (one_key k w P hq)) ∙ rw (← k_is_j) at hP)
  | inr e ↦ insert_other k j js w F (λ p. ground (arith, eq_iff k j)) ∙ hF
]
extract-assign (k ∷ k' ∷ ks) (j ∷ js) v w P F hq hP hF = elim (Bool-cases (k == j)) [
  | inl e ↦
      let k_is_j = (eq_iff k j).0 e in
      let (d, at_q, at_p, at_F) =
        entered k js k' ks v w P F hq (rw (← k_is_j) at hP) (rw (← k_is_j) at hF) in
      rw (← k_is_j) (
        insert_at k js _ F
        ∙ extract-assign (k' ∷ ks) js v w d (as_dict (lookup k F)) at_q at_p at_F)
  | inr e ↦ insert_other k j js _ F (λ p. ground (arith, eq_iff k j)) ∙ hF
]
