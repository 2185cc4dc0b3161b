-- ===== src/Ice/Channel/Stale.antt =====
-- The controller of a channel of src/ice/ice_transport_channel.cpp is not told that its selected
-- connection is gone.
use xrtc_server.Base.{
  ℕ, ◌≡◌, refl, true, List, [], ◌∷◌, Option, none, some, ◌==◌, ==_refl, if_true, sym, ap, subst,
  ◌∙◌,
}
use xrtc_server.Ice.Controller
use xrtc_server.Ice.Controller.{
  View, IceController, any, mark_connection_pinged, select_connection_to_ping,
}
use xrtc_server.Ice.Channel.{
  IceTransportChannel, Done, update_state, switch_selected_connection, maybe_switch,
  maybe_start_pinging, sorted, sort_and_update_state, is_selected, on_connection_destroyed,
}
use xrtc_server.Ice.Controller.{erase, switch_to, stable_sort}
use xrtc_server.Ice.Channel.Current.{update_state-Updated}

-- A sort that offers no connection leaves both selections.
unswitched :
    (ch : IceTransportChannel)
    → (Controller.sort_and_switch_connection ch.store ch.controller).1 ≡ none
    → ((sorted ch).controller.selected_connection ≡ ch.controller.selected_connection)
      × ((sorted ch).selected_connection ≡ ch.selected_connection)
unfolding Controller.sort_and_switch_connection
unswitched ch e =
    let r = Controller.sort_and_switch_connection ch.store ch.controller in
    subst
      (λ (o : Option ℕ).
        ((maybe_switch o (record ch { controller = r.0 })).controller.selected_connection
          ≡ ch.controller.selected_connection)
        × ((maybe_switch o (record ch { controller = r.0 })).selected_connection
            ≡ ch.selected_connection))
      (sym e) (refl, refl)

none_offered :
    (view : View) (s : IceController)
    → s.connections ≡ []
    → (Controller.sort_and_switch_connection view s).1 ≡ none
unfolding Controller.sort_and_switch_connection stable_sort
none_offered view s e =
    ap (λ (l : List ℕ). switch_to view s.selected_connection (stable_sort view l)) e

erase-only : (p : ℕ) (l : List ℕ) → l ≡ p ∷ [] → erase p l ≡ []
unfolding erase
erase-only p l e =
    ap (erase p) e ∙ if_true (λ (r : List ℕ). r ≡ []) (p == p) [] (p ∷ []) (==_refl p) refl

-- When the only connection is the selected one and it is destroyed, the channel has no selected
-- connection, but the controller still has this one.
pub destroyed-stale :
    (now p : ℕ) (ch : IceTransportChannel)
    → ch.selected_connection ≡ some p
    → ch.controller.selected_connection ≡ some p
    → ch.controller.connections ≡ p ∷ []
    → ((on_connection_destroyed now p ch).0.selected_connection ≡ none)
      × ((on_connection_destroyed now p ch).0.controller.selected_connection ≡ some p)
unfolding on_connection_destroyed sort_and_update_state maybe_start_pinging
    switch_selected_connection Controller.on_connection_destroyed
destroyed-stale now p ch selected known only =
    let Stale = λ (d : Done).
      (d.0.selected_connection ≡ none) × (d.0.controller.selected_connection ≡ some p) in
    let removed = record ch { controller = Controller.on_connection_destroyed ch.controller p } in
    let unselected = record removed { selected_connection = none } in
    let u = update_state-Updated (sorted unselected) in
    let (kept, gone) =
      unswitched unselected (
        none_offered ch.store unselected.controller
          (erase-only p ch.controller.connections only)) in
    let here : is_selected ch.selected_connection p ≡ true =
      ap (λ (o : Option ℕ). is_selected o p) selected ∙ ==_refl p in
    if_true Stale (is_selected ch.selected_connection p) (sort_and_update_state now unselected)
      (update_state removed) here
      (
        u.same_selected ∙ gone,
        ap (λ (k : IceController). k.selected_connection) u.same_controller ∙ (kept ∙ known),
      )
