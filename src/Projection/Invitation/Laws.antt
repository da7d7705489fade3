-- ===== src/Projection/Invitation/Laws.antt =====
-- The colour group of an invitation is that of the last message on it.
use seat_service.Common.{
  ◌≡◌, refl, ◌∙◌, ap, ℕ, false, Option, none, some, List, [], ◌∷◌, ◌++◌, if◌then◌else◌, ◌==◌,
  ==_self, All,
}
use seat_service.Action.{ok, and_then-ok, pure-ok, each}
use seat_service.Projection.{Projection, IsProjection, write-ok, upserted}
use seat_service.Projection.Invitation.{
  InvitationProjection, SeatingInfo, seating_row, selected_by, handle_seating_info_updated,
}
use seat_service.ColorGroup.{SeatColorGroup, match_groups, match_by_invitation}

module _ {T : Type 0} (p : Projection ℕ InvitationProjection T)
    (law : IsProjection (λ i j. i == j) p) where
  handle-find_unique :
      (m : SeatingInfo) (k : ℕ) (t t' : T) {u : Unit {0}}
      → handle_seating_info_updated p m t ≡ (ok u, t')
      → p.find_unique k t'
        ≡ (if m.invitation_id == k then some (seating_row m) else p.find_unique k t)
  unfolding handle_seating_info_updated
  handle-find_unique m k t t' h =
      law.find-upsert m.invitation_id k (seating_row m) (λ row. seating_row m) t t'
        (write-ok (p.upsert m.invitation_id (seating_row m) (λ row. seating_row m)) t t' h)
      ∙ ap (λ row. if m.invitation_id == k then row else p.find_unique k t)
          (set (p.find_unique k t))
    where
      set :
          (old : Option InvitationProjection)
          → some (upserted (seating_row m) (λ row. seating_row m) old) ≡ some (seating_row m)
      set none = refl
      set (some row) = refl

  others_keep :
      (k : ℕ) (ms : List SeatingInfo) (t t' : T) {u : Unit {0}}
      → All (λ n. (n.invitation_id == k) ≡ false) ms
      → each (handle_seating_info_updated p) ms t ≡ (ok u, t')
      → p.find_unique k t' ≡ p.find_unique k t
  unfolding each
  others_keep k [] t t' o h = let (_, same) = pure-ok h in rw same refl
  others_keep k (n ∷ ms) t t' (other, o) h =
      let (_, mid, first, rest) =
        and_then-ok (handle_seating_info_updated p n t)
          (λ _. each (handle_seating_info_updated p) ms) h in
      others_keep k ms mid t' o rest ∙ handle-find_unique n k t mid first ∙ rw other refl

  -- After messages of which the last on an invitation is the given one, whatever came before it, the
  -- seat of the invitation has the colour group that its values match.
  pub color_of_last_message :
      (before after : List SeatingInfo) (m : SeatingInfo) (t t' : T)
      (groups : Option (List SeatColorGroup))
      → All (λ n. (n.invitation_id == m.invitation_id) ≡ false) after
      → each (handle_seating_info_updated p) (before ++ m ∷ after) t ≡ (ok tt, t')
      → match_by_invitation groups (selected_by (p.find_unique m.invitation_id t'))
        ≡ match_groups groups m.selected_invited_by
  unfolding each match_by_invitation
  color_of_last_message [] after m t t' groups o h =
      let (_, mid, first, rest) =
        and_then-ok (handle_seating_info_updated p m t)
          (λ _. each (handle_seating_info_updated p) after) h in
      let k = m.invitation_id in
      let row : p.find_unique m.invitation_id t' ≡ some (seating_row m) =
        others_keep k after mid t' o rest
        ∙ handle-find_unique m k t mid first
        ∙ rw (==_self k) refl in
      rw row refl
  color_of_last_message (n ∷ before) after m t t' groups o h =
      let (_, mid, first, rest) =
        and_then-ok (handle_seating_info_updated p n t)
          (λ _. each (handle_seating_info_updated p) (before ++ m ∷ after)) h in
      color_of_last_message before after m mid t' groups o rest
