-- ===== src/Tests/Chart.antt =====
-- Codes in a chart of accounts.
use markaz.Prelude.{ℕ, suc, ◌≡◌, ◌⊎◌, ◌≤◌, refl, none, some, List, [], ◌∷◌, length}
use markaz.Prelude.Text.{codes, pad_start, show, pow10}
use markaz.Accounting.AccountCode.{CodedAccount, by_id, climb, level_of, suggest_next_child_code}
use markaz.Accounting.AccountCode.Climb.{level_of_ends}
use markaz.Accounting.AccountCode.Children.{IsWidth, IsTop, IsStart}
use markaz.Accounting.AccountCode.Laws.{
  AreTaken, suggest_next_child_code_null, IsNextCode, suggest_next_child_code_lem,
}

abbrev group : CodedAccount
group = record { id = 2; code = codes "11"; parent_id = some 1 }

-- A root, its group, and the group's accounts 101 and 103.
abbrev chart : List CodedAccount
chart =
    record { id = 1; code = codes "1"; parent_id = none }
    ∷ group
    ∷ record { id = 3; code = codes "11101"; parent_id = some 2 }
    ∷ record { id = 4; code = codes "11103"; parent_id = some 2 }
    ∷ []

-- Two accounts that are each other's parent.
abbrev first_of_cycle : CodedAccount
first_of_cycle = record { id = 1; code = codes "1"; parent_id = some 2 }

abbrev cycle : List CodedAccount
cycle = first_of_cycle ∷ record { id = 2; code = codes "2"; parent_id = some 1 } ∷ []

level_of_ends_example :
    (n : ℕ) × (level_of first_of_cycle cycle ≡ some n) × (1 ≤ n) × (n ≤ suc (length cycle))
level_of_ends_example = level_of_ends first_of_cycle cycle

suggest_next_child_code_lem_example :
    (parent : CodedAccount) × (level : ℕ) × (by_id 2 chart ≡ some parent)
    × (level_of parent chart ≡ some level)
    × IsNextCode chart parent level (codes "11104")
unfolding suggest_next_child_code level_of climb pad_start show
suggest_next_child_code_lem_example = suggest_next_child_code_lem chart 2 (codes "11104") refl

-- A root with one digit left, and that taken by an account of another parent.
abbrev full : List CodedAccount
full =
    record { id = 1; code = codes "1"; parent_id = none }
    ∷ record { id = 2; code = codes "18"; parent_id = some 1 }
    ∷ record { id = 3; code = codes "19"; parent_id = none }
    ∷ []

suggest_next_child_code_null_example :
    (by_id 1 full ≡ none)
    ⊎ ((parent : CodedAccount) × (level : ℕ) × (width : ℕ) × (top : ℕ) × (start : ℕ) × (by_id 1 full
          ≡ some parent)
        × (level_of parent full ≡ some level)
        × IsWidth level width
        × IsTop parent width top full
        × IsStart level top start
        × AreTaken full parent width start (pow10 width))
unfolding suggest_next_child_code level_of climb pad_start show
suggest_next_child_code_null_example = suggest_next_child_code_null full 1 refl
