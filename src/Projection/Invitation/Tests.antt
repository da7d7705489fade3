-- ===== src/Projection/Invitation/Tests.antt =====
-- An invitation whose values change.
use seat_service.Common.{◌≡◌, refl, ℕ, Option, none, some, List, [], ◌∷◌, ◌++◌, String, ◌==◌}
use seat_service.Action.{ok, and_then, each}
use seat_service.Projection.{Projection, IsProjection, settle}
use seat_service.Projection.Memory.{in_memory, in_memory-IsProjection}
use seat_service.Projection.Invitation.{
  InvitationProjection, SeatingInfo, selected_by, handle_seating_info_updated,
}
use seat_service.Projection.Invitation.Laws.{color_of_last_message}
use seat_service.ColorGroup.{match_groups, match_by_invitation}

abbrev InvitationTable : Type 0
InvitationTable = ℕ → Option InvitationProjection

abbrev table : Projection ℕ InvitationProjection InvitationTable
table = in_memory (λ i j. i == j)

abbrev table_laws : IsProjection (λ i j. i == j) table
table_laws = in_memory-IsProjection (λ i j. i == j)

abbrev info : ℕ → List String → SeatingInfo
info id values = record { invitation_id = id; guest_id = none; selected_invited_by = values }

abbrev earlier : List SeatingInfo
earlier = info 4 [] ∷ []

abbrev later : List SeatingInfo
later = info 5 ("groom" ∷ []) ∷ []

abbrev delivered : InvitationTable
delivered =
    (each (handle_seating_info_updated table) (earlier ++ info 4 ("bride" ∷ []) ∷ later)
      (λ k. none)).1

delivered_runs :
    each (handle_seating_info_updated table) (earlier ++ info 4 ("bride" ∷ []) ∷ later) (λ k. none)
    ≡ (ok tt, delivered)
unfolding each handle_seating_info_updated and_then settle
delivered_runs = refl

color_of_last_message_example :
    match_by_invitation (some []) (selected_by (table.find_unique 4 delivered))
    ≡ match_groups (some []) ("bride" ∷ [])
color_of_last_message_example =
    color_of_last_message table table_laws earlier later (info 4 ("bride" ∷ [])) (λ k. none)
      delivered (some []) (refl, tt) delivered_runs
