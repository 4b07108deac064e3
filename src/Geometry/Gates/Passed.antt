-- ===== src/Geometry/Gates/Passed.antt =====
-- When the gates report nothing.
use salience.Geometry.Number.{Number}
