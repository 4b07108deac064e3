-- ===== src/Delta/Index/Refined.antt =====
-- `stableIndex` and `boundaryIndex` make the map of their items, and fail where there is none.
use salience.Base.{
  ℕ, suc, ◌≡◌, refl, sym, ◌∙◌, ap, Text, codes, includes, List, [], ◌∷◌, ◌++◌, Bool, true, false,
  Option, none, some, if◌then◌else◌, ◌>>=◌,
}
use salience.Base.Result.{Result, ok, err}
use salience.Json.{Value, get, as_text}
use salience.Delta.{Index, index_keys}
use salience.Delta.Index.{
  Collection, Scan, scan_item, scan_items, scanned, empty_scan, stable_index, boundary_key,
  boundary_name, ambiguous_or, scan_boundaries, unambiguous, boundary_index,
}
use salience.Delta.Index.Map.{put_in, indexed}

abbrev pub to_option : {E : Type 0} {A : Type 0} → Result E A → Option A
to_option (ok a) = some a
to_option (err e) = none

abbrev pub nonempty : Option Text → Option Text
nonempty none = none
nonempty (some []) = none
nonempty (some (c ∷ t)) = some (c ∷ t)

-- The keys of the two indexes.
abbrev pub stable_key : Value → Option Text
stable_key item = nonempty (as_text (get (codes "id") item))

abbrev pub frame_key : Value → Option Text
frame_key b = some (boundary_key b)

-- The index of a scan that found no fault.
abbrev view : List Text → List Text → Index → Option Index
view [] [] index = some index
view [] (d ∷ duplicates) index = none
view (m ∷ missing) duplicates index = none

abbrev scan_view : Scan → Option Index
scan_view s = view s.missing s.duplicates s.index

abbrev keyed_scan : Bool → List Text → List Text → Text → Value → Index → Scan
keyed_scan t m d key item index =
    if t
    then record { index = index; missing = m; duplicates = d ++ (key ∷ []) }
    else record { index = index ++ ((key, item) ∷ []); missing = m; duplicates = d }

kept :
    (t : Bool) (key : Text) (item : Value) (index : Index)
    → scan_view (keyed_scan t [] [] key item index)
      ≡ (if t then none else some (index ++ ((key, item) ∷ [])))
kept true key item index = refl
kept false key item index = refl

still_none :
    (t : Bool) (m d : List Text) (key : Text) (item : Value) (index : Index)
    → view m d index ≡ none
    → scan_view (keyed_scan t m d key item index) ≡ none
still_none true [] [] key item index e = refl
still_none true [] (x ∷ d) key item index e = refl
still_none true (x ∷ m) d key item index e = refl
still_none false [] [] key item index e = cc
still_none false [] (x ∷ d) key item index e = refl
still_none false (x ∷ m) d key item index e = refl

then_some : (o : Option Index) → (o >>= some) ≡ o
then_some none = refl
then_some (some x) = refl

then_assoc :
    (o : Option Index) (f g : Index → Option Index) → ((o >>= f) >>= g) ≡ (o >>= λ x. f x >>= g)
then_assoc none f g = refl
then_assoc (some x) f g = refl

scan_item-view :
    (c : Collection) (i : ℕ) (item : Value) (id : Option Text) (m d : List Text) (index : Index)
    → scan_view (scan_item c i item id (record { index = index; missing = m; duplicates = d }))
      ≡ (view m d index >>= λ x. put_in x item (nonempty id))
scan_item-view c i item none [] [] index = refl
scan_item-view c i item none [] (x ∷ d) index = refl
scan_item-view c i item none (x ∷ m) d index = refl
scan_item-view c i item (some []) [] [] index = refl
scan_item-view c i item (some []) [] (x ∷ d) index = refl
scan_item-view c i item (some []) (x ∷ m) d index = refl
scan_item-view c i item (some (y ∷ id)) [] [] index =
    kept (includes (index_keys index) (y ∷ id)) (y ∷ id) item index
scan_item-view c i item (some (y ∷ id)) [] (x ∷ d) index =
    still_none (includes (index_keys index) (y ∷ id)) [] (x ∷ d) (y ∷ id) item index refl
scan_item-view c i item (some (y ∷ id)) (x ∷ m) d index =
    still_none (includes (index_keys index) (y ∷ id)) (x ∷ m) d (y ∷ id) item index refl

scan_items-view :
    (c : Collection) (i : ℕ) (items : List Value) (s : Scan)
    → scan_view (scan_items c i items s) ≡ (scan_view s >>= indexed stable_key items)
unfolding scan_items indexed
scan_items-view c i [] s = sym (then_some (scan_view s))
scan_items-view c i (item ∷ items) s =
    let id = as_text (get (codes "id") item) in
    scan_items-view c (suc i) items (scan_item c i item id s)
    ∙ ap (λ o. o >>= indexed stable_key items)
        (scan_item-view c i item id s.missing s.duplicates s.index)
    ∙ then_assoc (scan_view s) (λ x. put_in x item (stable_key item)) (indexed stable_key items)

scanned-view :
    (c : Collection) (m d : List Text) (index : Index)
    → to_option (scanned c m d index) ≡ view m d index
scanned-view c [] [] index = refl
scanned-view c [] (x ∷ d) index = refl
scanned-view c (x ∷ m) d index = refl

-- `stableIndex` gives the map of the items by their identifiers, where each has one of its own, and
-- fails on all other items.
pub stable_index-indexed :
    (c : Collection) (items : List Value)
    → to_option (stable_index c items) ≡ indexed stable_key items []
unfolding stable_index
stable_index-indexed c items =
    let s = scan_items c 0 items empty_scan in
    scanned-view c s.missing s.duplicates s.index ∙ scan_items-view c 0 items empty_scan

ambiguous_or-view :
    (b : Value) (index : Index) (names : List Text)
    → (let s = ambiguous_or b (index, names) in view [] s.1 s.0)
      ≡ (view [] names index >>= λ x. put_in x b (frame_key b))
ambiguous_or-view b index [] = of_test (includes (index_keys index) (boundary_key b))
  where
    of_test :
        (t : Bool)
        → (let s =
              if◌then◌else◌ {A = Index × List Text} t
                (index, boundary_name b ∷ [])
                (index ++ ((boundary_key b, b) ∷ []), []) in
            view [] s.1 s.0)
          ≡ (if t then none else some (index ++ ((boundary_key b, b) ∷ [])))
    of_test true = refl
    of_test false = refl
ambiguous_or-view b index (x ∷ names) = of_test (includes (index_keys index) (boundary_key b))
  where
    of_test :
        (t : Bool)
        → (let s =
              if◌then◌else◌ {A = Index × List Text} t
                (index, (x ∷ names) ++ (boundary_name b ∷ []))
                (index ++ ((boundary_key b, b) ∷ []), x ∷ names) in
            view [] s.1 s.0)
          ≡ none
    of_test true = refl
    of_test false = refl

scan_boundaries-view :
    (boundaries : List Value) (s : Index × List Text)
    → (let t = scan_boundaries boundaries s in view [] t.1 t.0)
      ≡ (view [] s.1 s.0 >>= indexed frame_key boundaries)
unfolding scan_boundaries indexed
scan_boundaries-view [] s = sym (then_some (view [] s.1 s.0))
scan_boundaries-view (b ∷ boundaries) s =
    scan_boundaries-view boundaries (ambiguous_or b s)
    ∙ ap (λ o. o >>= indexed frame_key boundaries) (ambiguous_or-view b s.0 s.1)
    ∙ then_assoc (view [] s.1 s.0) (λ x. put_in x b (frame_key b)) (indexed frame_key boundaries)

unambiguous-view :
    (index : Index) (names : List Text) → to_option (unambiguous index names) ≡ view [] names index
unambiguous-view index [] = refl
unambiguous-view index (x ∷ names) = refl

-- `boundaryIndex` gives the map of the boundaries by their kinds and labels, where no two share
-- both, and fails on all other boundaries.
pub boundary_index-indexed :
    (boundaries : List Value)
    → to_option (boundary_index boundaries) ≡ indexed frame_key boundaries []
unfolding boundary_index
boundary_index-indexed boundaries =
    let s = scan_boundaries boundaries ([], []) in
    unambiguous-view s.0 s.1 ∙ scan_boundaries-view boundaries ([], [])
