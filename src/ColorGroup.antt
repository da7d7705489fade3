-- ===== src/ColorGroup.antt =====
-- src/seat/services/color-group-matcher.service.ts: the colour group of a seat, by who invited its
-- guest. `sort` is the language's, which is stable; a column that holds no array is `none`.
pub mod Sorted
pub mod Laws
mod Tests
use seat_service.Common.{
  ℕ, Bool, true, false, ◌&&◌, ◌||◌, not, Option, none, some, List, [], ◌∷◌, String, str_eq, any,
  all, leb, if◌then◌else◌,
}

pub data MatchType : Type 0 where
  no_value single custom every_value other_type : MatchType

pub record Style : Type 0 where
  pub background : String
  pub foreground : String
  pub border : String
  pub legend_icon : String

pub record SeatColorGroup : Type 0 where
  pub id : String
  pub name : String
  pub style : Style
  pub match_type : MatchType
  pub invited_by_values : List String
  pub priority : ℕ
  pub order : ℕ
  pub is_orphaned : Bool

-- `selectedInvitedBy.includes(value)`
abbrev pub includes : List String → String → Bool
includes selected value = any (λ v. str_eq v value) selected

-- `selectedInvitedBy.length === 0`
abbrev pub is_empty : List String → Bool
is_empty [] = true
is_empty (v ∷ vs) = false

abbrev pub includes_first : List String → List String → Bool
includes_first selected [] = false
includes_first selected (value ∷ values) = includes selected value

-- The `switch`.
abbrev pub is_selected : List String → MatchType → List String → Bool
is_selected selected no_value values = is_empty selected
is_selected selected single values = includes_first selected values
is_selected selected custom values = all (includes selected) values
is_selected selected every_value values = all (includes selected) values
is_selected selected other_type values = false

abbrev pub insert : SeatColorGroup → List SeatColorGroup → List SeatColorGroup
insert g [] = g ∷ []
insert g (h ∷ hs) =
    let rest = insert g hs in if leb g.priority h.priority then g ∷ h ∷ hs else h ∷ rest

-- `[...groups].sort((a, b) => a.priority - b.priority)`
abbrev pub sort : List SeatColorGroup → List SeatColorGroup
sort [] = []
sort (g ∷ gs) = insert g (sort gs)

-- `toPayload`, which copies every field.
abbrev pub to_payload : SeatColorGroup → SeatColorGroup
to_payload group = record {
  id = group.id;
  name = group.name;
  style = record {
    background = group.style.background;
    foreground = group.style.foreground;
    border = group.style.border;
    legend_icon = group.style.legend_icon;
  };
  match_type = group.match_type;
  invited_by_values = group.invited_by_values;
  priority = group.priority;
  order = group.order;
  is_orphaned = group.is_orphaned;
}

-- The loop.
unfoldable pub first_match : List String → List SeatColorGroup → Option SeatColorGroup
first_match selected [] = none
first_match selected (g ∷ gs) =
    let rest = first_match selected gs in
    if g.is_orphaned
    then rest
    else if is_selected selected g.match_type g.invited_by_values
    then some (to_payload g)
    else rest

-- `match`, for the groups of the event's projection.
unfoldable pub match_groups : Option (List SeatColorGroup) → List String → Option SeatColorGroup
match_groups none selected = none
match_groups (some groups) selected = first_match selected (sort groups)

-- `matchByInvitation`, for the values of the invitation's projection, if there is one.
unfoldable pub match_by_invitation :
    Option (List SeatColorGroup) → Option (List String) → Option SeatColorGroup
match_by_invitation groups none = none
match_by_invitation groups (some selected) = match_groups groups selected
