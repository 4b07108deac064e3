-- ===== src/Geometry/Sides/Facing.antt =====
-- The default sides face each other, and a direct way between their anchors honours them.
use salience.Base.{◌≡◌, refl, ◌⊎◌, Bool, true, false, ◌&&◌, ◌||◌, arith, if◌then◌else◌}
use salience.Geometry.Number.{Number, lt}
use salience.Geometry.Route.{Side, left, right, top, bottom}
use salience.Geometry.Sides.{Node, default_from_side, default_to_side}

-- The side across a node.
abbrev pub across : Side → Side
across left = right
across right = left
across top = bottom
across bottom = top

sides_of :
    (a b c : Bool)
    → (if a then right else (if b then left else (if c then top else bottom)))
      ≡ across (if a then left else (if b then right else (if c then bottom else top)))
sides_of true b c = refl
sides_of false true c = refl
sides_of false false true = refl
sides_of false false false = refl

-- The side that a relationship enters by default lies across the one that it leaves.
pub default_to_side-across :
    (from to : Node) → default_to_side from to ≡ across (default_from_side from to)
unfolding default_to_side default_from_side
default_to_side-across from to = sides_of (lt to.cx from.cx) (lt from.cx to.cx) (lt from.cy to.cy)

abbrev Differ : Number → Number → Type 0
Differ a b = (lt a b ≡ true) ⊎ (lt b a ≡ true)

turned :
    (a b c d : Bool)
    → (a && b) ≡ false
    → (c && d) ≡ false
    → (a || b || c || d) ≡ true
    → (if a then left else (if b then right else (if c then bottom else top)))
      ≡ (if b then right else (if a then left else (if d then top else bottom)))
turned a b c d e f g = ground arith

never_both : (a b : Number) → (lt a b && lt b a) ≡ false
never_both a b = ground arith

-- Between nodes with different centres, a relationship leaves by default on the side where the one
-- in the other direction enters.
pub default_from_side-back :
    (from to : Node)
    → (lt to.cx from.cx || lt from.cx to.cx || lt from.cy to.cy || lt to.cy from.cy) ≡ true
    → default_from_side from to ≡ default_to_side to from
unfolding default_to_side default_from_side
default_from_side-back from to h =
    turned (lt to.cx from.cx) (lt from.cx to.cx) (lt from.cy to.cy) (lt to.cy from.cy)
      (never_both to.cx from.cx) (never_both from.cy to.cy) h
