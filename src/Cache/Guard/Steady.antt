-- ===== src/Cache/Guard/Steady.antt =====
-- The guards keep every property that other processes and the loss of trust keep, and what they
-- return has passed their tests.
use salience.Base.{
  suc, ◌≡◌, refl, List, [], ◌∷◌, Bool, true, false, ◌&&◌, Option, none, some, and-eq-true,
}
use salience.Cache.Disk.{FilePath, Metadata, Disk}
use salience.Cache.Action.{World, Failure, Token, pure, ◌>>=◌, distrusted, path_changed, failed}
use salience.Cache.Action.Rules.{
  Keeps, Anything, Keeps-pure, Keeps-throw, Keeps-if, Keeps-catch, Keeps-weaken, Keeps-bind,
  Keeps-then, Keeps-read, Keeps-current_token, Keeps-distrust,
}
use salience.Cache.Guard.{
  is_same_file, is_expected, safe_directory, check, lstat, invalidate_cache_token, verify_snapshots,
  verify_token, verify_cache_token, resolve_with, resolve_cache_target, is_enoent, look_twice,
  stable_cache_entry, stable_prepared_directory, assert_cache_target_absent,
}

pub record Steady (P : World → Type 0) : Type 0 where
  pub called : (w : World) (d : Disk) → P w → P (record w { disk = d; tick = suc w.tick })
  pub lost : (w : World) → P w → P (record w { token = distrusted w.token })

module _ {P : World → Type 0} where
  pub Keeps-check : (b : Bool) (e : Failure) → Keeps P (λ _. b ≡ true) (check b e)
  unfolding check
  Keeps-check true e = Keeps-pure tt refl
  Keeps-check false e = Keeps-throw e

  module _ (s : Steady P) where
    open s use {called, lost}

    pub Keeps-lstat : (p : FilePath) → Keeps P Anything (lstat p)
    unfolding lstat
    Keeps-lstat p = Keeps-read _ called

    pub Keeps-invalidate {ℓ} : {A : Type ℓ} {R : A → Type 0} → Keeps P R invalidate_cache_token
    unfolding invalidate_cache_token
    Keeps-invalidate = Keeps-then (Keeps-distrust lost) (Keeps-throw path_changed)

    pub Keeps-verify_snapshots :
        (l : List (FilePath × Metadata)) → Keeps P Anything (verify_snapshots l)
    unfolding verify_snapshots
    Keeps-verify_snapshots [] = Keeps-pure tt tt
    Keeps-verify_snapshots ((p, m) ∷ l) = Keeps-bind (Keeps-lstat p) λ n _.
        Keeps-bind (Keeps-check (safe_directory n) failed)
          λ _ _. Keeps-bind (Keeps-check (is_same_file m n) failed) λ _ _. Keeps-verify_snapshots l

    Keeps-verify_token : (t : Option Token) → Keeps P Anything (verify_token t)
    unfolding verify_token
    Keeps-verify_token none = Keeps-throw path_changed
    Keeps-verify_token (some t) =
        Keeps-if t.trusted
          (λ _. Keeps-catch (Keeps-verify_snapshots t.ancestor_snapshots) (λ _. Keeps-invalidate))
          (λ _. Keeps-throw path_changed)

    pub Keeps-verify_cache_token : Keeps P Anything verify_cache_token
    unfolding verify_cache_token
    Keeps-verify_cache_token =
        Keeps-bind (Keeps-current_token (λ _ _. tt)) (λ t _. Keeps-verify_token t)

    pub Keeps-look_twice :
        (p : FilePath) (validate : Metadata → Bool) (expected : Option Metadata)
        → Keeps P
            (λ m. (validate m ≡ true) × (is_expected expected m ≡ true))
            (look_twice p validate expected)
    unfolding look_twice
    Keeps-look_twice p validate expected = Keeps-bind (Keeps-lstat p) λ first _.
        Keeps-bind (Keeps-check (validate first) failed) λ _ _.
          Keeps-bind (Keeps-check (is_expected expected first) failed) λ _ _.
            Keeps-bind Keeps-verify_cache_token λ _ _. Keeps-bind (Keeps-lstat p) λ second _.
              Keeps-bind (Keeps-check (validate second) failed) λ _ v.
                Keeps-bind
                  (Keeps-check (is_same_file first second && is_expected expected second) failed)
                  (λ _ e. Keeps-pure second (v, (and-eq-true _ _ e).1))

    Keeps-resolve_with :
        (t : Option Token) (target : FilePath) → Keeps P Anything (resolve_with t target)
    unfolding resolve_with
    Keeps-resolve_with none target = Keeps-invalidate
    Keeps-resolve_with (some t) target =
        Keeps-if _ (λ _. Keeps-invalidate) (λ _. Keeps-pure target tt)

    pub Keeps-resolve : (target : FilePath) → Keeps P Anything (resolve_cache_target target)
    unfolding resolve_cache_target
    Keeps-resolve target =
        Keeps-bind (Keeps-current_token (λ _ _. tt)) (λ t _. Keeps-resolve_with t target)

    -- The second look at an entry is what `stableCacheEntry` returns: metadata that passed the
    -- validator and is of the file that the caller expected.
    pub Keeps-stable_cache_entry :
        (target : FilePath) (validate : Metadata → Bool) (expected : Option Metadata) (race : Bool)
        → Keeps P
            (λ m. (validate m ≡ true) × (is_expected expected m ≡ true))
            (stable_cache_entry target validate expected race)
    unfolding stable_cache_entry
    Keeps-stable_cache_entry target validate expected race =
        Keeps-bind (Keeps-resolve target) λ resolved _.
          Keeps-catch (Keeps-look_twice resolved validate expected) λ e.
            Keeps-if _ (λ _. Keeps-then Keeps-verify_cache_token (Keeps-throw e))
              (λ _. Keeps-invalidate)

    pub Keeps-stable_prepared_directory :
        (target : FilePath) → Keeps P Anything (stable_prepared_directory target)
    unfolding stable_prepared_directory
    Keeps-stable_prepared_directory target =
        Keeps-weaken
          (Keeps-catch (Keeps-look_twice target safe_directory none) (λ _. Keeps-invalidate))
          (λ _ _. tt)

    Keeps-absent : (resolved : FilePath) → Keeps P Anything (do m ← lstat resolved; pure false)
    Keeps-absent resolved = Keeps-bind (Keeps-lstat resolved) (λ _ _. Keeps-pure false tt)

    pub Keeps-assert_cache_target_absent :
        (target : FilePath) → Keeps P Anything (assert_cache_target_absent target)
    unfolding assert_cache_target_absent
    Keeps-assert_cache_target_absent target = Keeps-bind (Keeps-resolve target) λ resolved _.
        Keeps-bind
          (Keeps-catch (Keeps-absent resolved)
            λ e. Keeps-if (is_enoent e) (λ _. Keeps-pure true tt) (λ _. Keeps-invalidate))
          λ absent _. Keeps-if absent (λ _. Keeps-pure tt tt) (λ _. Keeps-invalidate)
