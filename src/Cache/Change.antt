-- ===== src/Cache/Change.antt =====
-- The changes of the cache directory: `captureMutationParentSnapshots`, `guardedCacheMutation`,
-- `cacheMkdir`, `cacheWriteFile`, `cacheRename`, `cacheRm` and `prepareCacheDirectory`.
pub mod Mutation
pub mod Below
pub mod Containment
pub mod Distrust
use salience.Base.{
  ℕ, Text, text_eq, List, [], ◌∷◌, ◌++◌, Bool, true, false, not, ◌&&◌, ◌||◌, Option, none, some,
  leb, ltb, ◌==◌, any, map, if◌then◌else◌,
}
use salience.Base.Result.{Result, ok, err}
use salience.Json.{Value}
use salience.Cache.Disk
use salience.Cache.Disk.{
  FilePath, path_eq, relative, parent, Metadata, Node, Disk, Errno, enoent, eexist, einval, find,
  Kind, is_file, is_symlink, is_directory, add_entry, rename, remove, write_inode, has_directory,
  move_entries,
}
use salience.Cache.Action.{
  Action, Failure, Token, errno, path_changed, operation_race, failed, pure, throw, catch, ◌>>=◌,
  ◌>>◌, call, current_token, set_token, distrust, made_directory, wrote_file, renamed, removed,
  World,
}
use salience.Cache.Guard.{
  is_same_file, safe_directory, safe_cache_entry, check, lstat, invalidate_cache_token,
  verify_snapshots, verify_token, verify_cache_token, resolve_with, resolve_cache_target, is_enoent,
  look_twice, stable_cache_entry, stable_prepared_directory, assert_cache_target_absent,
}

abbrev pub Snapshots : Type 0
Snapshots = List (FilePath × Metadata)

-- The loop over the components of a parent: each directory is looked at once.
unfoldable pub snapshot_components : FilePath → FilePath → Snapshots → Action Snapshots
snapshot_components current [] snapshots = pure snapshots
snapshot_components current (component ∷ components) snapshots =
    let next = current ++ (component ∷ []) in
    if any (λ s. path_eq s.0 next) snapshots
    then snapshot_components next components snapshots
    else do
      metadata ← lstat next
      check (safe_directory metadata) failed
      snapshot_components next components (snapshots ++ ((next, metadata) ∷ []))

abbrev components_below : Option Token → FilePath → FilePath × FilePath
components_below none p = ([], p)
components_below (some t) p = elim (relative t.directory p) [
  | none ↦ (t.directory, [])
  | some rest ↦ (t.directory, rest)
]

unfoldable pub snapshot_parents : List FilePath → Snapshots → Action Snapshots
snapshot_parents [] snapshots = pure snapshots
snapshot_parents (target ∷ targets) snapshots = do
  resolved ← resolve_cache_target target
  token ← current_token
  let (start, components) = components_below token (parent resolved)
  more ← snapshot_components start components snapshots
  snapshot_parents targets more

unfoldable pub verify_mutation_parent_snapshots : Snapshots → Action (Unit {0})
verify_mutation_parent_snapshots snapshots =
    catch (verify_snapshots snapshots) (λ e. throw operation_race)

unfoldable pub capture_mutation_parent_snapshots : List FilePath → Action Snapshots
capture_mutation_parent_snapshots targets = do
  verify_cache_token
  captured ← catch (snapshot_parents targets []) (λ e. invalidate_cache_token)
  verify_mutation_parent_snapshots captured
  verify_cache_token
  pure captured

unfoldable pub verify_mutation_context : Snapshots → Action (Unit {0})
verify_mutation_context parents = do
  verify_cache_token
  verify_mutation_parent_snapshots parents
  verify_cache_token

abbrev pub is_operation_race : Failure → Bool
is_operation_race e = elim e [ operation_race ↦ true | _ ↦ false ]

unfoldable pub guarded_cache_mutation {ℓ} :
    {A : Type ℓ} → Snapshots → Action (Unit {0}) → Action A → (A → Action A) → Action A
guarded_cache_mutation parents verify_before mutate verify_after = do
  verify_mutation_context parents
  verify_before
  result ← catch mutate (λ e. do verify_mutation_context parents; throw e)
  catch
      (do
        verify_mutation_context parents
        verified ← verify_after result
        verify_mutation_context parents
        pure verified)
      λ e. if is_operation_race e then throw e else invalidate_cache_token

abbrev pub node_of_kind : Kind → Metadata → Option Value → Node
node_of_kind kind m content = record {
  meta = record m { kind = kind; size = 0 };
  content = content;
}

-- `fs.mkdir(path, { mode: 0o700 })`
unfoldable pub mkdir : FilePath → Action (Unit {0})
mkdir p = call (made_directory p ∷ []) λ m d.
    elim (add_entry p (node_of_kind Kind.directory m none) d) [
      | ok d' ↦ ok (tt, d')
      | err e ↦ err e
    ]

-- The call without snapshots of its parents, and the one that `prepareCacheDirectory` makes.
unfoldable pub cache_mkdir : FilePath → Action (Unit {0})
cache_mkdir target = do
  parents ← capture_mutation_parent_snapshots (target ∷ [])
  guarded_cache_mutation parents (pure tt) (mkdir target)
      λ r. do m ← stable_cache_entry target safe_directory none false; pure r

unfoldable pub prepare_mkdir : FilePath → Action (Unit {0})
prepare_mkdir target =
    guarded_cache_mutation [] (pure tt) (mkdir target)
      λ r. do m ← stable_prepared_directory target; pure r

-- The handle of an exclusive `open`: the metadata of the new file.
unfoldable pub open_exclusive : FilePath → Value → Action Metadata
open_exclusive p v = call (wrote_file p v ∷ []) λ m d.
    let n = node_of_kind Kind.file m none in
    elim (add_entry p n d) [ ok d' ↦ ok (n.meta, d') | err e ↦ err e ]

abbrev pub handle_node : Metadata → Disk → Option Node
handle_node h [] = none
handle_node h ((p, n) ∷ d) =
    if n.meta.dev == h.dev && n.meta.ino == h.ino then some n else handle_node h d

-- `handle.stat()`; a file that is unlinked meanwhile keeps the metadata of its handle.
unfoldable pub handle_stat : Metadata → Action Metadata
handle_stat h = call [] λ m d. elim (handle_node h d) [ none ↦ ok (h, d) | some n ↦ ok (n.meta, d) ]

unfoldable pub handle_write : Metadata → ℕ → Value → Action (Unit {0})
handle_write h bytes v = call [] λ m d. ok (tt, write_inode h.dev h.ino bytes v d)

unfoldable pub write_new_file : FilePath → ℕ → Value → Action Metadata
write_new_file resolved bytes v = do
  handle ← open_exclusive resolved v
  opened ← handle_stat handle
  check (is_file opened && not (is_symlink opened)) failed
  handle_write handle bytes v
  written ← handle_stat handle
  check (is_same_file opened written && written.size == bytes) failed
  pure written

-- `cacheWriteFile`, of a value whose text has `bytes` bytes.
unfoldable pub cache_write_file : FilePath → ℕ → Value → Action Metadata
cache_write_file target bytes v = do
  resolved ← resolve_cache_target target
  parents ← capture_mutation_parent_snapshots (resolved ∷ [])
  guarded_cache_mutation parents (pure tt) (write_new_file resolved bytes v) λ written.
      stable_cache_entry resolved (λ m. is_file m && not (is_symlink m)) (some written) false

unfoldable pub rename_call : FilePath → FilePath → Action (Unit {0})
rename_call source destination =
    call (renamed source destination ∷ [])
      λ m d. elim (Disk.rename source destination d) [ ok d' ↦ ok (tt, d') | err e ↦ err e ]

-- `cacheRename`
unfoldable pub cache_rename :
    FilePath → FilePath → (Metadata → Bool) → Option Metadata → Action Metadata
cache_rename source destination validate expected_source = do
  resolved_source ← resolve_cache_target source
  resolved_destination ← resolve_cache_target destination
  parents ← capture_mutation_parent_snapshots (resolved_source ∷ resolved_destination ∷ [])
  metadata ← stable_cache_entry resolved_source validate expected_source true
  guarded_cache_mutation parents
      (do m ← stable_cache_entry resolved_source validate (some metadata) true; pure tt)
      (do rename_call resolved_source resolved_destination; pure metadata)
      λ r. do
        assert_cache_target_absent resolved_source
        stable_cache_entry resolved_destination validate (some metadata) false

unfoldable pub remove_call : FilePath → Action (Unit {0})
remove_call p =
    call (removed p ∷ []) λ m d. elim (Disk.remove p d) [ ok d' ↦ ok (tt, d') | err e ↦ err e ]

-- The part of `cacheRm` behind the first look at the target.
unfoldable pub remove_entry : FilePath → Snapshots → Metadata → Action (Unit {0})
remove_entry resolved parents initial =
    if safe_cache_entry initial
    then (do
      target ← stable_cache_entry resolved safe_cache_entry (some initial) false
      guarded_cache_mutation parents
          (do m ← stable_cache_entry resolved safe_cache_entry (some target) false; pure tt)
          (remove_call resolved) λ r. assert_cache_target_absent resolved)
    else invalidate_cache_token

abbrev pub found : Metadata → Option Metadata
found = some

abbrev pub remove_found : FilePath → Snapshots → Option Metadata → Action (Unit {0})
remove_found resolved parents none = verify_mutation_context parents
remove_found resolved parents (some m) = remove_entry resolved parents m

-- `cacheRm(…, { force: true })`
unfoldable pub cache_rm : FilePath → Action (Unit {0})
cache_rm target = do
  resolved ← resolve_cache_target target
  parents ← capture_mutation_parent_snapshots (resolved ∷ [])
  initial ←
      catch (do m ← lstat resolved; pure (found m)) λ e. if is_enoent e then pure none else throw e
  remove_found resolved parents initial

abbrev pub push_ancestor : Option Token → FilePath → Metadata → Token
push_ancestor none p m = record { directory = p; ancestor_snapshots = (p, m) ∷ []; trusted = true }
push_ancestor (some t) p m = record t { ancestor_snapshots = t.ancestor_snapshots ++ ((p, m) ∷ []) }

abbrev pub is_eexist : Failure → Bool
is_eexist e = elim e [ errno n ↦ elim n [ eexist ↦ true | _ ↦ false ] | _ ↦ false ]

-- The loop of `prepareCacheDirectory` over the components of its path.
unfoldable pub prepare_components : FilePath → FilePath → Action (Unit {0})
prepare_components current [] = pure tt
prepare_components current (component ∷ components) =
    let next = current ++ (component ∷ []) in
    do
      metadata ← catch (lstat next) λ e.
          if is_enoent e
          then (do
            catch (prepare_mkdir next) (λ e'. if is_eexist e' then pure tt else throw e')
            lstat next)
          else throw e
      check (safe_directory metadata) failed
      token ← current_token
      set_token (push_ancestor token next metadata)
      prepare_components next components

abbrev pub restore : Option Token → Action (Unit {0})
restore old w = (ok tt, record w { token = old })

-- `prepareCacheDirectory` behind its first lines, of the canonical path. The token under construction
-- stands in the place of the registered one, which comes back where the preparation fails.
unfoldable pub prepare_cache_directory : FilePath → Action (Unit {0})
prepare_cache_directory target = do
  old ← current_token
  catch
      (do
        set_token (record { directory = target; ancestor_snapshots = []; trusted = true })
        prepare_components [] target
        verify_cache_token)
      λ e. do restore old; throw e

-- To run the changes in a test, unfold this.
unfoldable pub change_run :
    FilePath → FilePath → (Metadata → Bool) → Option Metadata → Action Metadata
unfolding cache_rename cache_rm cache_mkdir cache_write_file remove_entry remove_call rename_call
    mkdir write_new_file open_exclusive handle_stat handle_write ◌>>=◌ resolve_cache_target
    current_token resolve_with path_eq relative pure capture_mutation_parent_snapshots
    verify_cache_token verify_token catch verify_snapshots lstat call Disk.lstat find check text_eq
    distrust throw guarded_cache_mutation snapshot_components snapshot_parents
    verify_mutation_context verify_mutation_parent_snapshots has_directory move_entries Disk.rename
    Disk.remove add_entry write_inode assert_cache_target_absent invalidate_cache_token is_same_file
    look_twice stable_cache_entry
change_run = cache_rename
