-- ===== src/ColorGroup/Tests.antt =====
-- Three groups, of which two match the selection, the one of lower priority last.
use seat_service.Common.{
  ◌≡◌, refl, ℕ, ◌≤◌, true, false, none, some, List, [], ◌∷◌, String, ◌⊎◌, Has, find?,
}
use seat_service.ColorGroup.{
  SeatColorGroup, MatchType, no_value, single, every_value, first_match, match_groups,
}
use seat_service.ColorGroup.Sorted.{is_match, is_match_at}
use seat_service.ColorGroup.Laws.{match_groups_least}

abbrev group : String → MatchType → List String → ℕ → SeatColorGroup
group name match_type values priority = record {
  id = name;
  name = name;
  style = record { background = "#fff"; foreground = "#000"; border = "#ccc"; legend_icon = "dot" };
  match_type = match_type;
  invited_by_values = values;
  priority = priority;
  order = 0;
  is_orphaned = false;
}

abbrev groups : List SeatColorGroup
groups =
    group "both" every_value ("bride" ∷ "groom" ∷ []) 3
    ∷ group "nobody" no_value [] 1
    ∷ group "bride" single ("bride" ∷ []) 2
    ∷ []

abbrev selected : List String
selected = "groom" ∷ "bride" ∷ []

bride_first : match_groups (some groups) selected ≡ some (group "bride" single ("bride" ∷ []) 2)
unfolding match_groups first_match
bride_first = refl

match_groups_least_example :
    ((match_groups (some groups) selected ≡ none)
      × ((h : SeatColorGroup) → Has h groups → is_match selected h ≡ false))
    ⊎ ((g : SeatColorGroup) × (match_groups (some groups) selected ≡ some g)
        × Has g groups
        × (is_match selected g ≡ true)
        × ((h : SeatColorGroup)
            → Has h groups
            → is_match selected h ≡ true
            → g.priority ≤ h.priority)
        × (find? (is_match_at selected g.priority) groups ≡ some g))
match_groups_least_example = match_groups_least groups selected
