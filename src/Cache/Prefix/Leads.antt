-- ===== src/Cache/Prefix/Leads.antt =====
-- Where `prepareCacheDirectory` makes directories.
use mathlib.Core.List.{append_assoc, append-nil}
use mathlib.Core.Path.{subst}
use salience.Base.{
  suc, ◌≡◌, refl, sym, ◌∙◌, ◌⊎◌, inl, inr, List, [], ◌∷◌, ◌++◌, Option, none, some, true, false,
  Bool, if◌then◌else◌, ltb,
}
use salience.Base.Result.{Result, ok, err}
use salience.Cache.Disk.{FilePath, relative, Disk, Errno, path_eq}
use salience.Cache.Action.{
  World, Token, Change, made_directory, pure, call, catch, ◌>>=◌, finish, faulty, set_token, failed,
  wrote_file, renamed, removed,
}
use salience.Cache.Action.Rules.{
  Keeps, After, Always, Keeps-Always, Anything, Keeps-pure, Keeps-throw, Keeps-if, Keeps-catch,
  Keeps-bind, Keeps-then, Keeps-call, Keeps-current_token,
}
use salience.Cache.Guard.{safe_directory, is_enoent}
use salience.Cache.Guard.Steady.{
  Steady, Keeps-check, Keeps-lstat, Keeps-verify_cache_token, Keeps-stable_prepared_directory,
}
use salience.Cache.Change.{
  mkdir, prepare_mkdir, prepare_components, prepare_cache_directory, restore, is_eexist,
}
use salience.Cache.Change.Mutation.{Keeps-mutation}
use salience.Cache.Change.Below.{relative-some}
use salience.Cache.Prefix.{
  Roots, real_path, path_length, canonical_from, trusted_directories,
  canonicalize_trusted_directory_prefix, prepare_resolved_directory,
}

module _ (roots : Roots) (target : FilePath) where
  -- The target with a trusted directory replaced by where its links led at some time.
  abbrev pub IsReplaced : FilePath → Type 0
  IsReplaced p =
      (directory canonical rest : FilePath) × (d : Disk) × (((directory ≡ roots.home_directory)
          ⊎ (directory ≡ roots.temporary_directory))
        × ((target ≡ directory ++ rest)
            × ((roots.resolve directory d ≡ ok canonical) × (p ≡ canonical ++ rest))))

  abbrev pub IsCanonicalOf : FilePath → Type 0
  IsCanonicalOf p = (p ≡ target) ⊎ IsReplaced p

  -- A directory on the way to such a path.
  abbrev IsLeading : Change → Type 0
  IsLeading (made_directory p) = (q rest : FilePath) × (IsCanonicalOf q × (q ≡ p ++ rest))
  IsLeading (wrote_file p v) = ⊥
  IsLeading (renamed p q) = ⊥
  IsLeading (removed p) = ⊥

  abbrev AllLead : List Change → Type 0
  AllLead [] = Unit
  AllLead (c ∷ cs) = IsLeading c × AllLead cs

  AllLead-append : (l m : List Change) → AllLead l → AllLead m → AllLead (l ++ m)
  AllLead-append [] m _ h = h
  AllLead-append (c ∷ l) m (a, b) h = (a, AllLead-append l m b h)

  -- Every change was to make a directory on the way to a canonical form of the target.
  pub record Leads (w : World) : Type 0 where
    pub all : AllLead w.log

  steady : Steady Leads
  steady = record { called = λ w d p. record { all = p.all }; lost = λ w p. record { all = p.all } }

  Keeps-mkdir : (p : FilePath) → IsLeading (made_directory p) → Keeps Leads Anything (mkdir p)
  unfolding mkdir
  Keeps-mkdir p h =
      Keeps-call (made_directory p ∷ []) _ (λ w d k. record { all = k.all })
        (λ w d k. record { all = AllLead-append w.log (made_directory p ∷ []) k.all (h, tt) })

  Keeps-prepare_mkdir :
      (p : FilePath) → IsLeading (made_directory p) → Keeps Leads Anything (prepare_mkdir p)
  unfolding prepare_mkdir
  Keeps-prepare_mkdir p h =
      Keeps-mutation steady [] (Keeps-pure tt tt) (Keeps-mkdir p h)
        λ r _. Keeps-bind (Keeps-stable_prepared_directory steady p) (λ _ _. Keeps-pure r tt)

  Keeps-set_token : (t : Token) → Keeps Leads Anything (set_token t)
  unfolding set_token After
  Keeps-set_token t = record { at = λ w p. (tt, record { all = p.all }) }

  Keeps-restore : (t : Option Token) → Keeps Leads Anything (restore t)
  unfolding After
  Keeps-restore t = record { at = λ w p. (tt, record { all = p.all }) }

  Keeps-prepare_components :
      (q current components : FilePath)
      → IsCanonicalOf q
      → q ≡ current ++ components
      → Keeps Leads Anything (prepare_components current components)
  unfolding prepare_components
  Keeps-prepare_components q current [] h e = Keeps-pure tt tt
  Keeps-prepare_components q current (component ∷ components) h e =
      let next = current ++ (component ∷ []) in
      let e' : q ≡ next ++ components =
        e ∙ sym (append_assoc current (component ∷ []) components) in
      Keeps-bind
        (Keeps-catch (Keeps-lstat steady next) λ x.
          Keeps-if (is_enoent x)
            (λ _.
              Keeps-then
                (Keeps-catch (Keeps-prepare_mkdir next (q, components, (h, e')))
                  λ y. Keeps-if (is_eexist y) (λ _. Keeps-pure tt tt) (λ _. Keeps-throw y))
                (Keeps-lstat steady next))
            (λ _. Keeps-throw x))
        λ metadata _. Keeps-bind (Keeps-check (safe_directory metadata) failed) λ _ _.
          Keeps-bind (Keeps-current_token {R = Anything} (λ _ _. tt)) λ token _.
            Keeps-then (Keeps-set_token _) (Keeps-prepare_components q next components h e')

  Keeps-prepare_cache_directory :
      (q : FilePath) → IsCanonicalOf q → Keeps Leads Anything (prepare_cache_directory q)
  unfolding prepare_cache_directory
  Keeps-prepare_cache_directory q h =
      Keeps-bind (Keeps-current_token {R = Anything} (λ _ _. tt)) λ old _.
        Keeps-catch
          (Keeps-then (Keeps-set_token _)
            (Keeps-then (Keeps-prepare_components q [] q h refl) (Keeps-verify_cache_token steady)))
          λ e. Keeps-then (Keeps-restore old) (Keeps-throw e)

  abbrev IsTrusted : FilePath → Type 0
  IsTrusted p = (p ≡ roots.home_directory) ⊎ (p ≡ roots.temporary_directory)

  abbrev AllTrusted : List FilePath → Type 0
  AllTrusted [] = Unit
  AllTrusted (p ∷ ps) = IsTrusted p × AllTrusted ps

  either :
      (b : Bool) (l m : List FilePath)
      → AllTrusted l
      → AllTrusted m
      → AllTrusted (if b then l else m)
  either true l m h k = h
  either false l m h k = k

  trusted_directories-AllTrusted : AllTrusted (trusted_directories roots)
  unfolding trusted_directories
  trusted_directories-AllTrusted =
      let home = roots.home_directory in
      let temporary = roots.temporary_directory in
      either (path_eq home temporary) _ _ (inl refl, tt)
        (either (ltb (path_length home) (path_length temporary)) _ _ (inr refl, (inl refl, tt))
          (inl refl, (inr refl, tt)))

  module _ {P : World → Type 0} (s : Steady P) where
    unlogged :
        (w : World) (d : Disk)
        → P w
        → P (record w { disk = d; tick = suc w.tick; log = w.log ++ [] })
    unlogged w d k =
        subst (λ l. P (record w { disk = d; tick = suc w.tick; log = l })) (sym (append-nil w.log))
          (s.called w d k)

    answer :
        (p : FilePath) (w : World) (d : Disk)
        → P w
        → (o : Option Errno) (r : Result Errno FilePath) → roots.resolve p d ≡ r
        → After P
            (λ q. (d' : Disk) × (roots.resolve p d' ≡ ok q))
            (finish w d [] (faulty o (elim r [ ok q ↦ ok (q, d) | err e ↦ err e ])))
    unfolding After
    answer p w d k none (ok q) e = ((d, e), unlogged w d k)
    answer p w d k none (err x) e = s.called w d k
    answer p w d k (some x) r e = s.called w d k

    Keeps-real_path :
        (p : FilePath) → Keeps P (λ q. (d : Disk) × (roots.resolve p d ≡ ok q)) (real_path roots p)
    unfolding real_path call
    Keeps-real_path p = record {
      at = λ w k.
          let d = w.env.interfere w.tick w.disk in
          answer p w d k (w.env.fault w.tick) (roots.resolve p d) refl;
    }

    of_rest :
        (directory : FilePath) (ds : List FilePath)
        → IsTrusted directory
        → Keeps P IsCanonicalOf (canonical_from roots target ds)
        → (o : Option FilePath) → relative directory target ≡ o
        → Keeps P IsCanonicalOf (elim o [
          | none ↦ canonical_from roots target ds
          | some rest ↦
              catch
                (do canonical ← real_path roots directory; pure (canonical ++ rest))
                (λ e. canonical_from roots target ds)
        ])
    of_rest directory ds h k none e = k
    of_rest directory ds h k (some rest) e =
        Keeps-catch
          (Keeps-bind (Keeps-real_path directory) λ canonical s. Keeps-pure (canonical ++ rest) (
            inr (
              directory,
              canonical,
              rest,
              s.0,
              (h, (relative-some directory target rest e, (s.1, refl))),
            )))
          (λ _. k)

    Keeps-canonical_from :
        (ds : List FilePath)
        → AllTrusted ds
        → Keeps P IsCanonicalOf (canonical_from roots target ds)
    unfolding canonical_from
    Keeps-canonical_from [] h = Keeps-pure target (inl refl)
    Keeps-canonical_from (directory ∷ ds) (h, hs) =
        of_rest directory ds h (Keeps-canonical_from ds hs) (relative directory target) refl

  -- The path that `prepareCacheDirectory` returns is a canonical form of its argument.
  pub prepare_resolved_directory-IsCanonicalOf :
      Keeps Always IsCanonicalOf (prepare_resolved_directory roots target)
  unfolding prepare_resolved_directory canonicalize_trusted_directory_prefix
  prepare_resolved_directory-IsCanonicalOf =
      Keeps-bind
        (Keeps-canonical_from (record { called = λ w d p. tt; lost = λ w p. tt })
          (trusted_directories roots) trusted_directories-AllTrusted)
        λ q h. Keeps-then (Keeps-Always _) (Keeps-pure q h)

  -- `prepareCacheDirectory` changes nothing but that it makes directories on the way to a canonical
  -- form of its argument, whether it succeeds or fails, and it returns such a form: the argument, or
  -- the argument with the home directory or the temporary directory replaced by where its links led.
  pub prepare_resolved_directory-Leads :
      Keeps Leads IsCanonicalOf (prepare_resolved_directory roots target)
  unfolding prepare_resolved_directory canonicalize_trusted_directory_prefix
  prepare_resolved_directory-Leads =
      Keeps-bind
        (Keeps-canonical_from steady (trusted_directories roots) trusted_directories-AllTrusted)
        λ q h. Keeps-then (Keeps-prepare_cache_directory q h) (Keeps-pure q h)
