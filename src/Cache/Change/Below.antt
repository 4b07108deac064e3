-- ===== src/Cache/Change/Below.antt =====
-- Paths strictly below a directory, and worlds in which every change was made there.
use mathlib.Core.List.{append-nil}
use salience.Base.{
  suc, ◌≡◌, refl, sym, ap, ap₂, ◌∙◌, arith, Text, List, [], ◌∷◌, ◌++◌, Bool, true, false, not, ◌||◌,
  Option, none, some, text_eq, text_eq_iff, text_eq_refl, some_inj, if-eq-some,
}
use salience.Cache.Disk.{FilePath, path_eq, relative, Disk}
use salience.Cache.Action.{
  World, Token, Change, call, made_directory, wrote_file, renamed, removed, distrusted,
}
use salience.Cache.Action.Rules.{Keeps, Anything, Keeps-call}
use salience.Cache.Guard.{is_within_directory}
use salience.Cache.Guard.Steady.{Steady}

-- A path strictly below a directory.
abbrev pub IsBelow : FilePath → FilePath → Type 0
IsBelow directory p = (component : Text) × (rest : FilePath) × (p ≡ directory ++ (component ∷ rest))

abbrev pub IsChangeBelow : FilePath → Change → Type 0
IsChangeBelow d (made_directory p) = IsBelow d p
IsChangeBelow d (wrote_file p v) = IsBelow d p
IsChangeBelow d (renamed p q) = IsBelow d p × IsBelow d q
IsChangeBelow d (removed p) = IsBelow d p

abbrev pub AllBelow : FilePath → List Change → Type 0
AllBelow d [] = Unit
AllBelow d (c ∷ cs) = IsChangeBelow d c × AllBelow d cs

abbrev pub IsTokenOf : FilePath → Option Token → Type 0
IsTokenOf d none = Unit
IsTokenOf d (some t) = t.directory ≡ d

-- The token is that of the directory, and so far every change was strictly below it.
pub record Contained (directory : FilePath) (w : World) : Type 0 where
  pub token_of : IsTokenOf directory w.token
  pub below : AllBelow directory w.log

AllBelow-append :
    (d : FilePath) (l m : List Change) → AllBelow d l → AllBelow d m → AllBelow d (l ++ m)
AllBelow-append d [] m _ h = h
AllBelow-append d (c ∷ l) m (a, b) h = (a, AllBelow-append d l m b h)

IsTokenOf-distrusted :
    (d : FilePath) (t : Option Token) → IsTokenOf d t → IsTokenOf d (distrusted t)
IsTokenOf-distrusted d none h = h
IsTokenOf-distrusted d (some t) h = h

pub relative-some : (d p rest : FilePath) → relative d p ≡ some rest → p ≡ d ++ rest
unfolding relative
relative-some [] p rest h = some_inj h
relative-some (s ∷ ss) [] rest h = cc
relative-some (s ∷ ss) (t ∷ ts) rest h =
    let (e, r) = if-eq-some (text_eq s t) (relative ss ts) rest h in
    ap₂ (λ x xs. x ∷ xs) (sym ((text_eq_iff s t).0 e)) (relative-some ss ts rest r)

path_eq_refl : (p : FilePath) → path_eq p p ≡ true
unfolding path_eq
path_eq_refl [] = refl
path_eq_refl (t ∷ ts) = rw (text_eq_refl t, path_eq_refl ts) refl

pub IsBelow-resolved :
    (d p : FilePath) (o : Option FilePath)
    → relative d p ≡ o
    → (path_eq p d || not (is_within_directory d p)) ≡ false
    → IsBelow d p
IsBelow-resolved d p none e h = absurd (neither (path_eq p d) h)
  where
    within : is_within_directory d p ≡ false
    within = rw (e, is_within_directory) refl

    neither : (b : Bool) → (b || not (is_within_directory d p)) ≡ false → ⊥
    neither b = rw within (ground arith)
IsBelow-resolved d p (some []) e h =
    let same = relative-some d p [] e ∙ append-nil d in
    let equal = ap (λ x. path_eq x d) same ∙ path_eq_refl d in cc
IsBelow-resolved d p (some (c ∷ rest)) e h = (c, rest, relative-some d p (c ∷ rest) e)

module _ (directory : FilePath) where
  called :
      (w : World) (d : Disk)
      → Contained directory w
      → Contained directory (record w { disk = d; tick = suc w.tick })
  called w d c = record { token_of = c.token_of; below = c.below }

  lost :
      (w : World)
      → Contained directory w
      → Contained directory (record w { token = distrusted w.token })
  lost w c = record {
    token_of = IsTokenOf-distrusted directory w.token c.token_of;
    below = c.below;
  }

  pub steady : Steady (Contained directory)
  steady = record { called = called; lost = lost }

  pub Keeps-change {ℓ} :
      {A : Type ℓ} (c : Change) (f : _)
      → IsChangeBelow directory c
      → Keeps (Contained directory) (Anything {A = A}) (call (c ∷ []) f)
  Keeps-change c f h = Keeps-call (c ∷ []) f called logged
    where
      logged :
          (w : World) (d : Disk)
          → Contained directory w
          → Contained directory (record w { disk = d; tick = suc w.tick; log = w.log ++ (c ∷ []) })
      logged w d k =
          let b = AllBelow-append directory w.log (c ∷ []) k.below (h, tt) in
          record { token_of = k.token_of; below = b }
