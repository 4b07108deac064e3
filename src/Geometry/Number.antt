-- ===== src/Geometry/Number.antt =====
-- Numbers of the geometry, without the rounding of floating point: a number is the difference of two
-- naturals, and a length counts units of 0.0001 px.
use salience.Base.{ℕ, ◌+◌, ◌*◌, Bool, leb, ltb, if◌then◌else◌}

pub record Number : Type 0 where
  pub up : ℕ
  pub down : ℕ

infixl 60 ◌⊕◌ ◌⊖◌
infixl 70 ◌⊗◌
abbrev pub ◌⊕◌ : Number → Number → Number
a ⊕ b = record { up = a.up + b.up; down = a.down + b.down }

abbrev pub ◌⊖◌ : Number → Number → Number
a ⊖ b = record { up = a.up + b.down; down = a.down + b.up }

abbrev pub ◌⊗◌ : Number → Number → Number
a ⊗ b = record { up = a.up * b.up + a.down * b.down; down = a.up * b.down + a.down * b.up }

abbrev pub opposite : Number → Number
opposite a = record { up = a.down; down = a.up }

abbrev pub of_units : ℕ → Number
of_units n = record { up = n; down = 0 }

-- A length of the source, in px.
abbrev pub px : ℕ → Number
px n = of_units (10000 * n)

-- `a <= b` and `a < b`
abbrev pub le : Number → Number → Bool
le a b = leb (a.up + b.down) (b.up + a.down)

abbrev pub lt : Number → Number → Bool
lt a b = ltb (a.up + b.down) (b.up + a.down)

-- `Math.max`, `Math.min` and `Math.abs`
abbrev pub max_of : Number → Number → Number
max_of a b = if le a b then b else a

abbrev pub min_of : Number → Number → Number
min_of a b = if le a b then a else b

abbrev pub abs : Number → Number
abs a = if lt a (of_units 0) then opposite a else a

-- The `0.0001` that lengths are compared with, and the one for products of two lengths.
abbrev pub epsilon : Number
epsilon = of_units 1

abbrev pub square_epsilon : Number
square_epsilon = of_units 10000
