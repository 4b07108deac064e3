-- ===== src/Json/Keys.antt =====
-- `isPlainObject`, `hasExactKeys` of update-contract.mjs and `hasOnlyKeys` of check-update.mjs.
use salience.Base.{Text, text_eq, List, [], ◌∷◌, ◌++◌, Bool, false, every, includes, if◌then◌else◌}
use salience.Semver.{compare_text, text_lt}
use salience.Json.{Value, object, Fields, keys}

-- `list.sort()` on texts: by code units.
unfoldable pub insert_text : Text → List Text → List Text
insert_text t [] = t ∷ []
insert_text t (s ∷ ss) = let rest = insert_text t ss in if text_lt s t then s ∷ rest else t ∷ s ∷ ss

unfoldable pub sort : List Text → List Text
unfolding insert_text
sort [] = []
sort (t ∷ ts) = insert_text t (sort ts)

-- `list.join('\0')`
unfoldable pub join_nul : List Text → Text
join_nul [] = []
join_nul (t ∷ []) = t
join_nul (t ∷ u ∷ us) = t ++ (0 ∷ join_nul (u ∷ us))

unfoldable pub has_exact_keys : Value → List Text → Bool
has_exact_keys (object fs) expected = text_eq (join_nul (sort (keys fs))) (join_nul (sort expected))
has_exact_keys _ expected = false

unfoldable pub has_only_keys : Fields → List Text → Bool
has_only_keys fs allowed = every (includes allowed) (keys fs)

-- To run `has_exact_keys` in a test, unfold this.
unfoldable pub has_exact_keys_run : Value → List Text → Bool
unfolding has_exact_keys sort join_nul keys text_eq compare_text
has_exact_keys_run = has_exact_keys
