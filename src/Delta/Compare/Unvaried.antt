-- ===== src/Delta/Compare/Unvaried.antt =====
-- The comparison of an architecture with itself.
use salience.Base.{◌≡◌, refl, sym, ◌∙◌, ap, ap₂, Bool, false, not, text_eq_refl}
use salience.Base.Result.{Result, ok, err, ok_inj, ◌>>=◌}
use salience.Delta.{canonical, are_equal}
use salience.Delta.Index.{
  DeltaError, Architecture, Indexes, base_side, head_side, indexes_of, compared_changes,
}
use salience.Delta.Self.{no_changes, indexes_of_self}
use salience.Delta.Compare.{
  require_comparable_shape, presentation, presentation_changed, Receipt, receipt,
  compare_architecture,
}

-- A receipt without a change.
abbrev pub unvaried : Receipt
unvaried = receipt no_changes false

presentation_changed_self : (a : Architecture) → presentation_changed a a ≡ false
unfolding presentation_changed are_equal
presentation_changed_self a =
    ap not (text_eq_refl (canonical (presentation a.meta a.layout a.cards)))

-- An architecture that is compared with itself, where it can be, gives a receipt without a change,
-- in its elements, its counts and its presentation.
pub compare_architecture_self :
    (a : Architecture) (r : Receipt) → compare_architecture a a ≡ ok r → r ≡ unvaried
unfolding compare_architecture
compare_architecture_self a r h =
    of_shapes (require_comparable_shape a base_side) (require_comparable_shape a head_side)
      (indexes_of a a) (λ p. indexes_of_self a p.0 p.1) h
  where
    of_shapes :
        (x y : Result DeltaError Bool) (i : Result DeltaError (Indexes × Indexes))
        → ((p : Indexes × Indexes) → i ≡ ok p → compared_changes p.0 p.1 ≡ no_changes)
        → (x >>= λ v. y >>= λ w.
            i >>= λ p. ok (receipt (compared_changes p.0 p.1) (presentation_changed a a)))
          ≡ ok r
        → r ≡ unvaried
    of_shapes (err e) y i f h = cc
    of_shapes (ok v) (err e) i f h = cc
    of_shapes (ok v) (ok w) (err e) f h = cc
    of_shapes (ok v) (ok w) (ok p) f h =
        sym (ok_inj h)
        ∙ ap₂ (λ changes b. receipt changes b) (f p refl) (presentation_changed_self a)
