-- ===== src/Cache/Guard.antt =====
-- The guards around every access to the cache directory: identity of files, trust in the token, and
-- the entries that are looked at twice.
pub mod Identity
pub mod Steady
pub mod Reads
use salience.Base.{
  ℕ, ◌≤◌, Text, List, [], ◌∷◌, ◌++◌, Bool, true, false, not, ◌&&◌, ◌||◌, Option, none, some, leb,
  ltb, ◌==◌, any, if◌then◌else◌,
}
use salience.Base.Result.{Result, ok, err}
use salience.Json.{Value}
use salience.Cache.Disk
use salience.Cache.Disk.{
  FilePath, path_eq, relative, parent, Metadata, Node, Disk, Errno, enoent, einval, is_directory,
  is_file, is_symlink,
}
use salience.Cache.Action.{
  Action, Failure, Token, errno, path_changed, operation_race, identity_changed, failed, pure,
  throw, catch, ◌>>=◌, ◌>>◌, call, current_token, distrust,
}

-- `isSameFile`
unfoldable pub is_same_file : Metadata → Metadata → Bool
is_same_file left right =
    if not (left.dev == right.dev && left.ino == right.ino)
    then false
    else if not (left.ino == 0)
    then true
    else if left.birthtime == 0 || right.birthtime == 0
    then false
    else left.birthtime == right.birthtime && left.mode == right.mode

-- `expected && !isSameFile(expected, metadata)`, negated.
abbrev pub is_expected : Option Metadata → Metadata → Bool
is_expected none m = true
is_expected (some e) m = is_same_file e m

-- The validators of entries: each throws a plain error where its test fails.
abbrev pub safe_directory : Metadata → Bool
safe_directory m = is_directory m && not (is_symlink m)

abbrev pub safe_cache_entry : Metadata → Bool
safe_cache_entry m = not (is_symlink m) && (is_directory m || is_file m)

abbrev pub safe_regular_file : Metadata → Bool
safe_regular_file m = is_file m && not (is_symlink m)

abbrev pub renameable_cache_entry : Metadata → Bool
renameable_cache_entry m = is_directory m || is_file m || is_symlink m

abbrev pub bounded_regular_file : ℕ → Metadata → Bool
bounded_regular_file max_bytes m = is_file m && not (is_symlink m) && leb m.size max_bytes

unfoldable pub check : Bool → Failure → Action (Unit {0})
check true e = pure tt
check false e = throw e

unfoldable pub lstat : FilePath → Action Metadata
lstat p = call [] (λ m d. elim (Disk.lstat p d) [ ok n ↦ ok (n, d) | err e ↦ err e ])

-- `throw invalidateCacheToken(…)`
unfoldable pub invalidate_cache_token {ℓ} : {A : Type ℓ} → Action A
invalidate_cache_token = do distrust; throw path_changed

-- One round of the loops over snapshots, and the loop.
unfoldable pub verify_snapshots : List (FilePath × Metadata) → Action (Unit {0})
verify_snapshots [] = pure tt
verify_snapshots ((directory, metadata) ∷ snapshots) = do
  m ← lstat directory
  check (safe_directory m) failed
  check (is_same_file metadata m) failed
  verify_snapshots snapshots

unfoldable pub verify_token : Option Token → Action (Unit {0})
verify_token none = throw path_changed
verify_token (some t) =
    if t.trusted
    then catch (verify_snapshots t.ancestor_snapshots) (λ e. invalidate_cache_token)
    else throw path_changed

-- `verifyCacheToken`
unfoldable pub verify_cache_token : Action (Unit {0})
verify_cache_token = do t ← current_token; verify_token t

unfoldable pub guarded_cache_read {ℓ} : {A : Type ℓ} → Action A → Action A
guarded_cache_read read = do
  verify_cache_token
  result ← catch read (λ e. do verify_cache_token; throw e)
  verify_cache_token
  pure result

abbrev pub is_within_directory : FilePath → FilePath → Bool
is_within_directory directory target = elim (relative directory target) [
  | none ↦ false
  | some _ ↦ true
]

unfoldable pub resolve_with : Option Token → FilePath → Action FilePath
resolve_with none target = invalidate_cache_token
resolve_with (some t) target =
    if path_eq target t.directory || not (is_within_directory t.directory target)
    then invalidate_cache_token
    else pure target

-- `resolveCacheTarget`; the paths of the model are resolved.
unfoldable pub resolve_cache_target : FilePath → Action FilePath
resolve_cache_target target = do t ← current_token; resolve_with t target

abbrev pub is_enoent : Failure → Bool
is_enoent e = elim e [ errno n ↦ elim n [ enoent ↦ true | _ ↦ false ] | _ ↦ false ]

unfoldable pub look_twice : FilePath → (Metadata → Bool) → Option Metadata → Action Metadata
look_twice resolved validate expected = do
  first ← lstat resolved
  check (validate first) failed
  check (is_expected expected first) failed
  verify_cache_token
  second ← lstat resolved
  check (validate second) failed
  check (is_same_file first second && is_expected expected second) failed
  pure second

-- `stableCacheEntry`
unfoldable pub stable_cache_entry :
    FilePath → (Metadata → Bool) → Option Metadata → Bool → Action Metadata
stable_cache_entry target validate expected missing_is_operation_race = do
  resolved ← resolve_cache_target target
  catch (look_twice resolved validate expected) λ e.
      if missing_is_operation_race && is_enoent e
      then (do verify_cache_token; throw e)
      else invalidate_cache_token

-- `guardedCacheEntryRead`
unfoldable pub guarded_cache_entry_read {ℓ} :
    {A : Type ℓ} → FilePath → (Metadata → Bool) → (Metadata → Action A) → Option Metadata → Action A
guarded_cache_entry_read target validate read expected = do
  metadata ← stable_cache_entry target validate expected true
  result ←
      catch (read metadata)
        λ e. do again ← stable_cache_entry target validate (some metadata) true; throw e
  again ← stable_cache_entry target validate (some metadata) true
  pure result

unfoldable pub stable_prepared_directory : FilePath → Action Metadata
stable_prepared_directory target =
    catch (look_twice target safe_directory none) (λ e. invalidate_cache_token)

unfoldable pub assert_cache_target_absent : FilePath → Action (Unit {0})
assert_cache_target_absent target = do
  resolved ← resolve_cache_target target
  absent ←
      catch (do m ← lstat resolved; pure false)
        λ e. if is_enoent e then pure true else invalidate_cache_token
  if absent then pure tt else invalidate_cache_token
