-- ===== src/Link/Catch/Runs.antt =====
-- Runs of the catch registry of src/link/catch.rs.
use medius.Base.{◌≡◌, refl, none, some, [], ◌∷◌, length}
use medius.Base.Map.{lookup, insert, remove}
use medius.Types.Direction.{Direction}
use medius.Types.Catch.{CatchClass, CatchFilter, Capture, filter_key}
use medius.Link.Reconcile.State.{FilterSet}
use medius.Link.Catch.{catch_sync, effective}
use medius.Link.Catch.Box.{box_apply_all}
use medius.Link.Catch.Union.{box_apply_all-effective}

abbrev wheel : Direction → CatchFilter
wheel d = record {
  class = some CatchClass.axis;
  id = some 2;
  direction = d;
  capture = Capture.whole;
}

abbrev everything : CatchFilter
everything = record {
  class = none;
  id = none;
  direction = Direction.both;
  capture = Capture.first 16;
}

abbrev wheel_up : FilterSet
wheel_up = (filter_key (wheel Direction.positive), wheel Direction.positive) ∷ []

abbrev wheel_down : FilterSet
wheel_down = (filter_key (wheel Direction.negative), wheel Direction.negative) ∷ []

abbrev tap : FilterSet
tap = (filter_key everything, everything) ∷ []

-- Opposite directions of one address are one entry of the union.
siblings_merge : length (effective (wheel_up ∷ wheel_down ∷ [])) ≡ 1
unfolding effective lookup insert remove filter_key
siblings_merge = refl

-- A wildcard subscription that ends clears the table, and what remains is sent again.
box_apply_all-effective_example :
    box_apply_all
      (catch_sync (effective (wheel_up ∷ tap ∷ [])) (effective (wheel_up ∷ [])))
      (effective (wheel_up ∷ tap ∷ []))
    ≡ effective (wheel_up ∷ [])
box_apply_all-effective_example = box_apply_all-effective (wheel_up ∷ tap ∷ []) (wheel_up ∷ [])
