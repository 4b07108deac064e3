-- ===== src/Geometry/Gates/Tests.antt =====
-- The gates on two relationships that run along each other and along a frame.
use salience.Base.{
  ℕ, suc, ◌≡◌, refl, Text, codes, List, [], ◌∷◌, Bool, false, Option, none, some, length,
}
use salience.Geometry.Number.{px}
use salience.Geometry.Segments.{Point, at}
use salience.Geometry.Borders.Runs.{Frame, rect_frame}
use salience.Geometry.Gates.{
  GateRelation, Gate, clean_ambiguous_corridor_problems, clean_border_run_problems,
}

abbrev gate : Text → Gate
gate variable = record {
  profile = codes "standard";
  profile_is_authoritative = false;
  variable = some variable;
}

abbrev relation : Text → Text → Option GateRelation
relation from to = some (record { from = some from; to = some to })

abbrev relations : List (Option GateRelation)
relations =
    relation (codes "a") (codes "b")
    ∷ none
    ∷ relation (codes "c") (codes "d")
    ∷ relation (codes "c") (codes "e")
    ∷ []

abbrev path_for : GateRelation → List (Option Point)
path_for r = some (at (px 0) (px 10)) ∷ some (at (px 60) (px 10)) ∷ []

abbrev known : Option (List Text)
known = some (codes "a" ∷ codes "b" ∷ codes "c" ∷ codes "d" ∷ [])

abbrev frames : List (Option Frame)
frames =
    some (
      rect_frame
        (record { x = px 10; y = px 10; half_width = px 50; half_height = px 20; radius = px 4 }))
    ∷ []

abbrev showcase : Gate
showcase = gate (codes "showcase")

abbrev corridor_count : ℕ
corridor_count = length (clean_ambiguous_corridor_problems known path_for showcase relations (px 8))

abbrev run_count : ℕ
run_count = length (clean_border_run_problems known path_for showcase relations frames)

-- Under another profile a corridor is not reported.
standard_run :
    clean_ambiguous_corridor_problems known path_for (gate (codes "draft")) relations (px 8) ≡ []
unfolding clean_ambiguous_corridor_problems salience.Base.text_eq
standard_run = refl
