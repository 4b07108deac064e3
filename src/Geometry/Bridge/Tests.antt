-- ===== src/Geometry/Bridge/Tests.antt =====
-- A bridge between two ports that are 4 px apart.
use salience.Base.{ℕ, ◌≡◌, refl, List, [], ◌∷◌, Bool, true, Option, some}
use salience.Geometry.Number.{px}
use salience.Geometry.Segments.{Point, at}
use salience.Geometry.Route.{top, bottom}
use salience.Geometry.Bridge.{automatic_port_rhythm_bridge}
use salience.Geometry.Bridge.Fits.{IsFitting, automatic_port_rhythm_bridge-IsFitting}

abbrev point : ℕ → ℕ → Point
point x y = at (px x) (px y)

abbrev accept_all : List Point → Bool
accept_all points = true

abbrev found : Option (List Point)
found =
    automatic_port_rhythm_bridge (px 24) (px 16) accept_all (some (point 100 100))
      (some (point 104 200)) (some bottom) (some top)

abbrev bridge : List Point
bridge =
    point 100 100
    ∷ point 100 124
    ∷ point 120 124
    ∷ at (px 120) (record { up = 2000000; down = 240000 })
    ∷ at (px 104) (record { up = 2000000; down = 240000 })
    ∷ point 104 200
    ∷ []

bridge_run : found ≡ some bridge
unfolding automatic_port_rhythm_bridge salience.Geometry.Bridge.find_bridge
    salience.Geometry.Bridge.is_bridge salience.Geometry.Route.route_honors_endpoint_sides
    salience.Geometry.Route.endpoint_side_issue salience.Geometry.Route.last_segment
    salience.Geometry.Route.collect_route_rhythm_issues salience.Geometry.Route.route_issues
    salience.Geometry.Route.segment_issues salience.Geometry.Route.segment_position
    salience.Geometry.Route.normalize_route_points salience.Geometry.Route.straighten_onto
    salience.Geometry.Route.drop_straight salience.Geometry.Route.dedupe_after
    salience.Geometry.Route.collinear_forward salience.Geometry.Segments.cross_product
bridge_run = refl

automatic_port_rhythm_bridge-IsFitting_example :
    IsFitting (px 24) (px 16) accept_all (point 100 100) bottom top bridge
automatic_port_rhythm_bridge-IsFitting_example =
    automatic_port_rhythm_bridge-IsFitting (px 24) (px 16) accept_all (point 100 100)
      (point 104 200) bottom top bridge bridge_run
