-- ===== src/Prune/Facts.antt =====
-- What a build's talents, hero tree and enemies are at runtime, and that their ranges hold it.
-- packages/simc-cli/src/simc_cli/prune.py
use warcraft_cli.Base.{
  ℕ, zero, suc, ◌≤◌, String, ◌≡◌, refl, subst, Bool, true, false, not, Option, none, some, [], ◌∷◌,
  ◌==◌, split, mem, value_at, ltb, arith, Bool-cases, inl, inr,
}
use warcraft_cli.Prune.Build.{
  PruneContext, tree_of, is_mem, indexed_talent, talent_rank, taken_rank, tree_value,
}
use warcraft_cli.Prune.Floats.{Floats, FloatLaws}
use warcraft_cli.Prune.Spans.{Span, outcome, from_outcome, not_span}
use warcraft_cli.Prune.Values.{
  Moment, is_true, of_bool, Within, Covers, outcome-Covers, from_outcome-Within, not_span-Within,
  any_value-Within,
}

-- A talent's rank in the build that runs, for a context that knows the talents.
pub record AgreesRank (is_decimal : ℕ → Bool) (c : PruneContext) (name : String) (rank : ℕ)
    : Type 0 where
  pub disabled : mem name c.disabled_talents ≡ true → rank ≡ 0
  pub known_rank :
      (k : ℕ)
      → mem name c.disabled_talents ≡ false
      → mem name c.enabled_talents ≡ true
      → value_at name c.talent_ranks ≡ some (suc k)
      → rank ≡ suc k
  pub taken : mem name c.disabled_talents ≡ false → mem name c.enabled_talents ≡ true → 1 ≤ rank
  pub untaken :
      mem name c.disabled_talents ≡ false
      → mem name c.enabled_talents ≡ false
      → is_mem (indexed_talent is_decimal name) c.enabled_talents ≡ false
      → rank ≡ 0

module _ (n : Floats) (w : FloatLaws n) (is_decimal : ℕ → Bool) (c : PruneContext) where
  pub of_ℕ-Within : (a : ℕ) → Within n (record { lo = n.of_ℕ a; hi = n.of_ℕ a }) (n.of_ℕ a)
  of_ℕ-Within a = (w.leq_refl (n.of_ℕ a), w.leq_refl (n.of_ℕ a))

  from_ℕ-Within : (a b : ℕ) → a ≤ b → Within n (record { lo = n.of_ℕ a; hi = n.inf }) (n.of_ℕ b)
  from_ℕ-Within a b h = (w.leq-of_ℕ a b h, w.leq-inf (n.of_ℕ b))

  taken_rank-Within :
      (o : Option ℕ) (rank : ℕ)
      → 1 ≤ rank
      → ((k : ℕ) → o ≡ some (suc k) → rank ≡ suc k)
      → Within n (taken_rank n is_decimal o) (n.of_ℕ rank)
  taken_rank-Within none rank h k = from_ℕ-Within 1 rank h
  taken_rank-Within (some zero) rank h k = from_ℕ-Within 1 rank h
  taken_rank-Within (some (suc r)) rank h k = rw (k r refl) (of_ℕ-Within (suc r))

  known_rank-Within :
      {name : String} {rank : ℕ}
      → c.talents_known ≡ true
      → AgreesRank is_decimal c name rank
      → Within n (talent_rank n is_decimal name c) (n.of_ℕ rank)
  unfolding talent_rank
  known_rank-Within {name} {rank} known agrees = elim (Bool-cases (mem name c.disabled_talents)) [
    | inl off ↦ rw (known, off) (rw (agrees.disabled off) (of_ℕ-Within 0))
    | inr on ↦ elim (Bool-cases (mem name c.enabled_talents)) [
      | inl taken ↦
          rw (known, on, taken)
            (taken_rank-Within (value_at name c.talent_ranks) rank (agrees.taken on taken)
              (λ k e. agrees.known_rank k on taken e))
      | inr untaken ↦
          elim (Bool-cases (is_mem (indexed_talent is_decimal name) c.enabled_talents)) [
            | inl indexed ↦ rw (known, on, untaken, indexed) (from_ℕ-Within 0 rank (omega arith))
            | inr absent ↦
                rw (known, on, untaken, absent)
                  (rw (agrees.untaken on untaken absent) (of_ℕ-Within 0))
          ]
    ]
  ]

  pub talent_rank-Within :
      (name : String) (rank : ℕ)
      → (c.talents_known ≡ true → AgreesRank is_decimal c name rank)
      → Within n (talent_rank n is_decimal name c) (n.of_ℕ rank)
  unfolding talent_rank
  talent_rank-Within name rank agrees = elim (Bool-cases c.talents_known) [
    | inr hidden ↦ rw hidden (from_ℕ-Within 0 rank (omega arith))
    | inl known ↦ known_rank-Within known (agrees known)
  ]

  is_true-of_ℕ : (rank : ℕ) → is_true n (n.of_ℕ rank) ≡ ltb 0 rank
  is_true-of_ℕ zero = ground (arith, w.leq_refl (n.of_ℕ 0))
  is_true-of_ℕ (suc r) = ground (
    arith,
    w.leq-of_ℕ 1 (suc r) (omega arith),
    w.leq_trans (n.of_ℕ 1) (n.of_ℕ (suc r)) (n.of_ℕ 0),
    w.one-leq-zero,
  )

  is_true-of_bool : (b : Bool) → is_true n (of_bool n b) ≡ b
  is_true-of_bool true = is_true-of_ℕ 1
  is_true-of_bool false = is_true-of_ℕ 0

  pub enabled-Within :
      (s : Span n) (rank : ℕ)
      → Within n s (n.of_ℕ rank)
      → Within n (from_outcome n (outcome n s)) (of_bool n (ltb 0 rank))
  enabled-Within s rank h =
      from_outcome-Within n w (outcome n s) (ltb 0 rank)
        (subst (Covers n (outcome n s)) (is_true-of_ℕ rank) (outcome-Covers n w s (n.of_ℕ rank) h))

  pub disabled-Within :
      (s : Span n) (rank : ℕ)
      → Within n s (n.of_ℕ rank)
      → Within n (not_span n (from_outcome n (outcome n s))) (of_bool n (not (ltb 0 rank)))
  disabled-Within s rank h =
      subst (λ b. Within n (not_span n (from_outcome n (outcome n s))) (of_bool n (not b)))
        (is_true-of_bool (ltb 0 rank))
        (not_span-Within n w (from_outcome n (outcome n s)) (of_bool n (ltb 0 rank))
          (enabled-Within s rank h))

  pub tree_value-Within :
      (o : Option String) (name : String) (x : n.Float)
      → ((tree : String) → o ≡ some tree → x ≡ of_bool n (name == tree))
      → Within n (tree_value n is_decimal o name) x
  tree_value-Within none name x h = any_value-Within n w x
  tree_value-Within (some tree) name x h = elim (Bool-cases (name == tree)) [
    | inl same ↦ rw same (rw (h tree refl) (rw same (of_ℕ-Within 1)))
    | inr other ↦ rw other (rw (h tree refl) (rw other (of_ℕ-Within 0)))
  ]

-- A moment of a run of the build: its talents have the ranks, its hero tree is the known one, and its
-- enemies are counted.
pub record Describes (n : Floats) (is_decimal : ℕ → Bool) (c : PruneContext) (rank : String → ℕ)
    (m : Moment n) : Type 0 where
  pub ranks : c.talents_known ≡ true → (name : String) → AgreesRank is_decimal c name (rank name)
  pub talent :
      (a name : String)
      → split b'.' a ≡ "talent" ∷ name ∷ []
      → m.atom a ≡ of_bool n (ltb 0 (rank name))
  pub talent_rank :
      (a name : String)
      → split b'.' a ≡ "talent" ∷ name ∷ "rank" ∷ []
      → m.atom a ≡ n.of_ℕ (rank name)
  pub talent_enabled :
      (a name : String)
      → split b'.' a ≡ "talent" ∷ name ∷ "enabled" ∷ []
      → m.atom a ≡ of_bool n (ltb 0 (rank name))
  pub talent_disabled :
      (a name : String)
      → split b'.' a ≡ "talent" ∷ name ∷ "disabled" ∷ []
      → m.atom a ≡ of_bool n (not (ltb 0 (rank name)))
  pub hero_tree :
      (a name tree : String)
      → split b'.' a ≡ "hero_tree" ∷ name ∷ []
      → tree_of c.hero_tree ≡ some tree
      → m.atom a ≡ of_bool n (name == tree)
  pub active_enemies : m.atom "active_enemies" ≡ n.of_ℕ c.targets
  pub spell_targets :
      (a name : String) → split b'.' a ≡ "spell_targets" ∷ name ∷ [] → m.atom a ≡ n.of_ℕ c.targets
