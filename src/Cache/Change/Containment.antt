-- ===== src/Cache/Change/Containment.antt =====
-- Where the changes of a cache directory happen, whatever other processes and the disk do.
use mathlib.Core.Path.{subst}
use salience.Base.{ℕ, ◌≡◌, refl, [], ◌∷◌, Bool, true, false, not, ◌&&◌, Option, none, some, ◌==◌}
use salience.Json.{Value}
use salience.Cache.Disk.{FilePath, parent, Metadata, is_file, is_symlink}
use salience.Cache.Action.{Token, failed, made_directory, wrote_file, renamed, removed}
use salience.Cache.Action.Rules.{
  Keeps, Anything, Keeps-pure, Keeps-throw, Keeps-if, Keeps-catch, Keeps-weaken, Keeps-bind,
  Keeps-then, Keeps-current_token,
}
use salience.Cache.Guard.{
  safe_directory, safe_cache_entry, is_expected, is_same_file, resolve_with, resolve_cache_target,
  is_enoent,
}
use salience.Cache.Guard.Identity.{is_same_file_trans}
use salience.Cache.Guard.Steady.{
  Steady, Keeps-check, Keeps-verify_cache_token, Keeps-lstat, Keeps-invalidate,
  Keeps-stable_cache_entry, Keeps-assert_cache_target_absent,
}
use salience.Cache.Change.{
  snapshot_parents, components_below, Snapshots, capture_mutation_parent_snapshots, mkdir,
  cache_mkdir, open_exclusive, write_new_file, cache_write_file, rename_call, cache_rename,
  remove_call, remove_entry, remove_found, cache_rm, found,
}
use salience.Cache.Change.Mutation.{
  Keeps-capture, Keeps-context, Keeps-handle_stat, Keeps-handle_write, Keeps-mutation,
  Keeps-snapshot_components, Keeps-verify_mutation_parent_snapshots,
}
use salience.Cache.Change.Below.{
  IsBelow, IsTokenOf, Contained, IsBelow-resolved, steady, Keeps-change,
}

is_expected_trans :
    (e : Option Metadata) (a b : Metadata)
    → is_expected e a ≡ true
    → is_same_file a b ≡ true
    → is_expected e b ≡ true
is_expected_trans none a b h k = refl
is_expected_trans (some e) a b h k = is_same_file_trans e a b h k

module _ (directory : FilePath) where
  abbrev Here : FilePath → Type 0
  Here = IsBelow directory

  kept : Steady (Contained directory)
  kept = steady directory

  Keeps-resolve_with :
      (t : Option Token) (target : FilePath)
      → IsTokenOf directory t
      → Keeps (Contained directory) (λ p. Here p × Here target) (resolve_with t target)
  unfolding resolve_with
  Keeps-resolve_with none target h = Keeps-invalidate kept
  Keeps-resolve_with (some t) target h =
      Keeps-if _ (λ _. Keeps-invalidate kept)
        λ e.
          let below =
            subst (λ d. IsBelow d target) h (IsBelow-resolved t.directory target _ refl e) in
          Keeps-pure target (below, below)

  Keeps-resolve :
      (target : FilePath)
      → Keeps (Contained directory) (λ p. Here p × Here target) (resolve_cache_target target)
  unfolding resolve_cache_target
  Keeps-resolve target =
      Keeps-bind (Keeps-current_token {R = IsTokenOf directory} (λ w c. c.token_of))
        λ t h. Keeps-resolve_with t target h

  Keeps-mkdir : (p : FilePath) → Here p → Keeps (Contained directory) Anything (mkdir p)
  unfolding mkdir
  Keeps-mkdir p h = Keeps-change directory (made_directory p) _ h

  Keeps-rename_call :
      (p q : FilePath) → Here p → Here q → Keeps (Contained directory) Anything (rename_call p q)
  unfolding rename_call
  Keeps-rename_call p q h k = Keeps-change directory (renamed p q) _ (h, k)

  Keeps-remove_call : (p : FilePath) → Here p → Keeps (Contained directory) Anything (remove_call p)
  unfolding remove_call
  Keeps-remove_call p h = Keeps-change directory (removed p) _ h

  Keeps-open :
      (p : FilePath) (v : Value)
      → Here p
      → Keeps (Contained directory) Anything (open_exclusive p v)
  unfolding open_exclusive
  Keeps-open p v h = Keeps-change directory (wrote_file p v) _ h

  Keeps-write :
      (p : FilePath) (bytes : ℕ) (v : Value)
      → Here p
      → Keeps (Contained directory) Anything (write_new_file p bytes v)
  unfolding write_new_file
  Keeps-write p bytes v h = Keeps-bind (Keeps-open p v h) λ handle _.
      Keeps-bind (Keeps-handle_stat kept handle) λ opened _.
        Keeps-bind (Keeps-check (is_file opened && not (is_symlink opened)) failed) λ _ _.
          Keeps-bind (Keeps-handle_write kept handle bytes v) λ _ _.
            Keeps-bind (Keeps-handle_stat kept handle) λ written _.
              Keeps-bind (Keeps-check (is_same_file opened written && written.size == bytes) failed)
                (λ _ _. Keeps-pure written tt)

  -- `cacheWriteFile` changes nothing but what lies strictly below the directory of the token, and
  -- returns the metadata of a regular file that is no symbolic link.
  pub cache_write_file-Contained :
      (target : FilePath) (bytes : ℕ) (v : Value)
      → Keeps
          (Contained directory)
          (λ m. (is_file m && not (is_symlink m)) ≡ true)
          (cache_write_file target bytes v)
  unfolding cache_write_file
  cache_write_file-Contained target bytes v = Keeps-bind (Keeps-resolve target) λ p h.
      Keeps-bind (Keeps-capture kept (p ∷ [])) λ parents _.
        Keeps-mutation kept parents (Keeps-pure tt tt) (Keeps-write p bytes v h.0) λ written _.
          Keeps-weaken (Keeps-stable_cache_entry kept p _ (some written) false) (λ _ r. r.0)

  -- `cacheRename` changes nothing but what lies strictly below the directory of the token, and the
  -- metadata that it returns passed the validator and is of the file that the caller expected.
  pub cache_rename-Contained :
      (source destination : FilePath) (validate : Metadata → Bool) (expected : Option Metadata)
      → Keeps
          (Contained directory)
          (λ m. (validate m ≡ true) × (is_expected expected m ≡ true))
          (cache_rename source destination validate expected)
  unfolding cache_rename
  cache_rename-Contained source destination validate expected =
      Keeps-bind (Keeps-resolve source) λ p h. Keeps-bind (Keeps-resolve destination) λ q k.
        Keeps-bind (Keeps-capture kept (p ∷ q ∷ [])) λ parents _.
          Keeps-bind (Keeps-stable_cache_entry kept p validate expected true) λ m r.
            Keeps-mutation kept {R = λ n. is_expected expected n ≡ true} parents
              (Keeps-bind (Keeps-stable_cache_entry kept p validate (some m) true)
                (λ _ _. Keeps-pure tt tt))
              (Keeps-then (Keeps-rename_call p q h.0 k.0) (Keeps-pure m r.1))
              λ _ _. Keeps-then (Keeps-assert_cache_target_absent kept p) (
                Keeps-weaken (Keeps-stable_cache_entry kept q validate (some m) false)
                  λ n t. (t.0, is_expected_trans expected m n r.1 t.1))

  Keeps-remove_entry :
      (p : FilePath) (parents : Snapshots) (m : Metadata)
      → Here p
      → Keeps (Contained directory) Anything (remove_entry p parents m)
  unfolding remove_entry
  Keeps-remove_entry p parents m h =
      Keeps-if (safe_cache_entry m)
        (λ _.
          Keeps-bind (Keeps-stable_cache_entry kept p safe_cache_entry (some m) false) λ target _.
            Keeps-mutation kept parents
              (Keeps-bind (Keeps-stable_cache_entry kept p safe_cache_entry (some target) false)
                (λ _ _. Keeps-pure tt tt))
              (Keeps-remove_call p h) (λ _ _. Keeps-assert_cache_target_absent kept p))
        (λ _. Keeps-invalidate kept)

  Keeps-remove_found :
      (p : FilePath) (parents : Snapshots)
      → Here p
      → (initial : Option Metadata)
      → Keeps (Contained directory) Anything (remove_found p parents initial)
  Keeps-remove_found p parents h none = Keeps-context kept parents
  Keeps-remove_found p parents h (some m) = Keeps-remove_entry p parents m h

  -- `cacheRm` changes nothing but what lies strictly below the directory of the token.
  pub cache_rm-Contained :
      (target : FilePath) → Keeps (Contained directory) Anything (cache_rm target)
  unfolding cache_rm
  cache_rm-Contained target = Keeps-bind (Keeps-resolve target) λ p h.
      Keeps-bind (Keeps-capture kept (p ∷ [])) λ parents _.
        Keeps-bind {R = Anything}
          (Keeps-catch (Keeps-bind (Keeps-lstat kept p) (λ m _. Keeps-pure (found m) tt))
            λ e. Keeps-if (is_enoent e) (λ _. Keeps-pure none tt) (λ _. Keeps-throw e))
          (λ initial _. Keeps-remove_found p parents h.0 initial)

  Keeps-captured_parents :
      (target : FilePath)
      → Keeps (Contained directory) (λ _. Here target) (snapshot_parents (target ∷ []) [])
  unfolding snapshot_parents
  Keeps-captured_parents target = Keeps-bind (Keeps-resolve target) λ p h.
      Keeps-bind (Keeps-current_token (λ _ _. tt)) λ token _.
        let below = components_below token (parent p) in
        Keeps-bind (Keeps-snapshot_components kept below.0 below.1 []) λ more _. Keeps-pure more h.1

  Keeps-captured :
      (target : FilePath)
      → Keeps
          (Contained directory)
          (λ _. Here target)
          (capture_mutation_parent_snapshots (target ∷ []))
  unfolding capture_mutation_parent_snapshots
  Keeps-captured target = Keeps-bind (Keeps-verify_cache_token kept) λ _ _.
      Keeps-bind (Keeps-catch (Keeps-captured_parents target) (λ _. Keeps-invalidate kept)) λ l h.
        Keeps-bind (Keeps-verify_mutation_parent_snapshots kept l)
          λ _ _. Keeps-bind (Keeps-verify_cache_token kept) (λ _ _. Keeps-pure l h)

  -- `cacheMkdir` changes nothing but what lies strictly below the directory of the token.
  pub cache_mkdir-Contained :
      (target : FilePath) → Keeps (Contained directory) Anything (cache_mkdir target)
  unfolding cache_mkdir
  cache_mkdir-Contained target = Keeps-bind (Keeps-captured target) λ parents h.
      Keeps-mutation kept parents (Keeps-pure tt tt) (Keeps-mkdir target h) λ r _.
        Keeps-bind (Keeps-stable_cache_entry kept target safe_directory none false)
          (λ _ _. Keeps-pure r tt)
