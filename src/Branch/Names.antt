-- ===== src/Branch/Names.antt =====
-- The words for lists and actions.
-- packages/simc-cli/src/simc_cli/branch.py
use warcraft_cli.Base.{
  String, Bool, true, false, ◌||◌, none, some, List, [], ◌∷◌, ◌==◌, map, cat, split, split_once,
  spaced, join, ends_with, value_at, if◌then◌else◌,
}

abbrev pub list_name_aliases : List (String × String)
list_name_aliases =
    ("trinkets", "trinket helper")
    ∷ ("trinket", "trinket helper")
    ∷ ("items", "item helper")
    ∷ ("item", "item helper")
    ∷ ("item_actions", "item helper")
    ∷ ("cooldowns", "cooldown helper")
    ∷ ("cds", "cooldown helper")
    ∷ ("ogcd", "off-gcd helper")
    ∷ ("racials", "racial helper")
    ∷ ("race", "racial helper")
    ∷ ("race_actions", "racial helper")
    ∷ ("variables", "variable helper")
    ∷ ("defensives", "defensive helper")
    ∷ ("precombat", "precombat setup")
    ∷ ("math_for_wizards", "build logic helper")
    ∷ ("illicit_doping", "burst items helper")
    ∷ ("es", "eternity surge helper")
    ∷ ("fb", "fire breath helper")
    ∷ []

abbrev pub token_aliases : List (String × String)
token_aliases =
    ("st", "single-target")
    ∷ ("aoe", "aoe")
    ∷ ("sc", "scalecommander")
    ∷ ("fs", "flameshaper")
    ∷ ("es", "eternity surge")
    ∷ ("fb", "fire breath")
    ∷ []

abbrev pub utility_actions : List String
utility_actions =
    "auto_attack" ∷ "auto_shot" ∷ "potion" ∷ "use_item" ∷ "use_items" ∷ "invoke_external_buff"
    ∷ "variable" ∷ "snapshot_stats" ∷ "retarget" ∷ "rebuke" ∷ "counterspell" ∷ "kick" ∷ "pummel"
    ∷ "mind_freeze" ∷ "wind_shear" ∷ "skull_bash" ∷ "solar_beam" ∷ "spear_hand_strike" ∷ "disrupt"
    ∷ "muzzle" ∷ "counter_shot" ∷ "quell" ∷ "silence" ∷ "spell_lock" ∷ "berserking" ∷ "blood_fury"
    ∷ "fireblood" ∷ "ancestral_call" ∷ "arcane_torrent" ∷ "lights_judgment" ∷ "bag_of_tricks"
    ∷ "arcane_pulse" ∷ "haymaker" ∷ "rocket_barrage" ∷ "thorn_bloom" ∷ []

abbrev pub action_role_aliases : List (String × String)
action_role_aliases =
    ("metamorphosis", "burst") ∷ ("dragonrage", "burst") ∷ ("tip_the_scales", "burst_setup") ∷ []

unfoldable pub humanize_list_name : String → String
unfolding join value_at split
humanize_list_name list_name = elim (value_at list_name list_name_aliases) [
  | some alias ↦ alias
  | none ↦ join " " (
      map (λ part. elim (value_at part token_aliases) [ some alias ↦ alias | none ↦ part ])
        (split b'_' list_name))
]

unfoldable pub humanize_action_label : String → String
unfolding split_once humanize_list_name spaced cat
humanize_action_label label = elim (split_once " -> " label) [
  | none ↦ spaced label
  | some (action, target) ↦
      let target_text = humanize_list_name target in
      if action == "call_action_list"
      then cat "run " target_text
      else if action == "run_action_list"
      then cat "enter " target_text
      else cat (spaced action) (cat " -> " target_text)
]

abbrev pub is_helper_name : String → Bool
is_helper_name target =
    elim (value_at target list_name_aliases) [ some alias ↦ true | none ↦ false ]
    || ends_with target "_variables"
    || ends_with target "_helper"
