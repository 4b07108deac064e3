-- ===== src/Delta/Self.antt =====
-- The comparison of an architecture with itself.
use salience.Base.{◌≡◌, refl, [], Bool, true, false}
use salience.Base.Result.{Result, ok, err, ◌>>=◌}
use salience.Delta.{Index, component, connection, boundary}
use salience.Delta.Index.{
  DeltaError, components, connections, stable_index, boundary_index, share_id, require_shared,
  Architecture, Indexes, other_indexes, indexes_of, Changes, compared_changes,
}
use salience.Delta.Unchanged.{compare_entities_self}

abbrev pub no_changes : Changes
no_changes = record { components = []; connections = []; boundaries = [] }

same_others :
    (x : Index) (n b : Result DeltaError Index) (i j : Indexes)
    → other_indexes x x n n b b ≡ ok (i, j)
    → i ≡ j
same_others x (err e) b i j h = cc
same_others x (ok y) (err e) i j h = cc
same_others x (ok y) (ok z) i j h = cc

same_shared :
    (t : Bool) (x : Index) (n b : Result DeltaError Index) (i j : Indexes)
    → (require_shared t >>= λ s. other_indexes x x n n b b) ≡ ok (i, j)
    → i ≡ j
same_shared true x n b i j h = same_others x n b i j h
same_shared false x n b i j h = cc

same_indexes :
    (c n b : Result DeltaError Index) (i j : Indexes)
    → (c >>= λ x. c >>= λ y. require_shared (share_id x y) >>= λ s. other_indexes x y n n b b)
      ≡ ok (i, j)
    → i ≡ j
same_indexes (err e) n b i j h = cc
same_indexes (ok x) n b i j h = same_shared (share_id x x) x n b i j h

compared_changes_self : (i : Indexes) → compared_changes i i ≡ no_changes
unfolding compared_changes
compared_changes_self i =
    rw
      (
        compare_entities_self component i.components,
        compare_entities_self connection i.connections,
        compare_entities_self boundary i.boundaries,
      )
      refl

-- An architecture that is compared with itself has no changes, if it can be compared.
pub indexes_of_self :
    (a : Architecture) (i j : Indexes)
    → indexes_of a a ≡ ok (i, j)
    → compared_changes i j ≡ no_changes
unfolding indexes_of
indexes_of_self a i j h =
    let e =
      same_indexes (stable_index components a.components_there)
        (stable_index connections a.connections_there) (boundary_index a.boundaries_there) i j h in
    rw e (compared_changes_self j)
