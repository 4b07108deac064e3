-- ===== src/Delta/Index/Keyed.antt =====
-- What an index holds.
use mathlib.Core.Path.{subst, ap, ◌∙◌}
use mathlib.Core.List.{append-nil, append_assoc}
use salience.Base.{
  ◌≡◌, refl, sym, Text, codes, includes, List, [], ◌∷◌, ◌++◌, false, Option, none, some, some_inj,
  >>=-eq-some,
}
use salience.Base.Result.{ok}
use salience.Json.{Value, get, as_text}
use salience.Delta.{Index, index_keys}
use salience.Delta.Index.{Collection, stable_index}
use salience.Delta.Index.Map.{put_in, put_in-eq-some, indexed}
use salience.Delta.Index.Refined.{to_option, nonempty, stable_key, stable_index-indexed}

-- The index holds the items in their order, each under its own identifier, which is no key of what
-- stands before it.
abbrev pub IsKeyed : Index → List Value → Index → Type 0
IsKeyed before [] [] = Unit
IsKeyed before [] (e ∷ index) = ⊥
IsKeyed before (item ∷ items) [] = ⊥
IsKeyed before (item ∷ items) ((key, v) ∷ index) =
    (v ≡ item)
    × ((as_text (get (codes "id") item) ≡ some key)
        × ((includes (index_keys before) key ≡ false)
            × IsKeyed (before ++ ((key, v) ∷ [])) items index))

nonempty-eq-some : (o : Option Text) (k : Text) → nonempty o ≡ some k → o ≡ some k
nonempty-eq-some none k e = cc
nonempty-eq-some (some []) k e = cc
nonempty-eq-some (some (c ∷ t)) k e = e

indexed-IsKeyed :
    (items : List Value) (before index : Index)
    → indexed stable_key items before ≡ some index
    → (rest : Index) × ((index ≡ before ++ rest) × IsKeyed before items rest)
unfolding indexed
indexed-IsKeyed [] before index e = ([], (sym (some_inj e) ∙ sym (append-nil before), tt))
indexed-IsKeyed (item ∷ items) before index e =
    let id = as_text (get (codes "id") item) in
    let (t, put, more) =
      >>=-eq-some (put_in before item (nonempty id)) (indexed stable_key items) e in
    let (k, (found, (fresh, t_eq))) = put_in-eq-some before item (nonempty id) t put in
    let (rest, (index_eq, keyed)) = indexed-IsKeyed items t index more in
    (
      (k, item) ∷ rest,
      (
        index_eq ∙ (ap (λ l. l ++ rest) t_eq ∙ append_assoc before ((k, item) ∷ []) rest),
        (
          refl,
          (nonempty-eq-some id k found, (fresh, subst (λ l. IsKeyed l items rest) t_eq keyed)),
        ),
      ),
    )

-- An index that is made holds all items in their order, each under its own identifier, and no
-- identifier occurs twice.
pub stable_index-IsKeyed :
    (c : Collection) (items : List Value) (index : Index)
    → stable_index c items ≡ ok index
    → IsKeyed [] items index
stable_index-IsKeyed c items index h =
    let e = sym (stable_index-indexed c items) ∙ ap to_option h in
    let (rest, (rest_eq, keyed)) = indexed-IsKeyed items [] index e in
    subst (IsKeyed [] items) (sym rest_eq) keyed
