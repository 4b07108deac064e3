-- ===== src/Cache/Prefix.antt =====
-- `canonicalizeTrustedDirectoryPrefix` and the whole of `prepareCacheDirectory`,
-- .agents/skills/archify/scripts/check-update.mjs.
pub mod Leads
use salience.Base.{
  ℕ, ◌+◌, suc, Text, List, [], ◌∷◌, ◌++◌, Option, none, some, ltb, length, if◌then◌else◌,
}
use salience.Base.Result.{Result, ok, err}
use salience.Cache.Disk.{FilePath, path_eq, relative, Disk, Errno}
use salience.Cache.Action.{Action, pure, catch, ◌>>=◌, ◌>>◌, call}
use salience.Cache.Change.{prepare_cache_directory}

-- `os.homedir()` and `os.tmpdir()`, and where the links of a path lead, which the disk of the model
-- does not say.
pub record Roots : Type 0 where
  pub home_directory : FilePath
  pub temporary_directory : FilePath
  pub resolve : FilePath → Disk → Result Errno FilePath

-- `fs.realpath`
unfoldable pub real_path : Roots → FilePath → Action FilePath
real_path roots p = call [] λ m d. elim (roots.resolve p d) [ ok q ↦ ok (q, d) | err e ↦ err e ]

-- The length of a path's text, with a separator before each component.
unfoldable pub path_length : FilePath → ℕ
path_length [] = 0
path_length (t ∷ ts) = suc (length t + path_length ts)

-- The two directories without repetition, the longest first.
unfoldable pub trusted_directories : Roots → List FilePath
trusted_directories roots =
    let home = roots.home_directory in
    let temporary = roots.temporary_directory in
    if path_eq home temporary
    then home ∷ []
    else (if ltb (path_length home) (path_length temporary)
        then temporary ∷ home ∷ []
        else home ∷ temporary ∷ [])

-- The loop over the trusted directories: the first that contains the target, and whose links can be
-- followed, is replaced by where they lead.
unfoldable pub canonical_from : Roots → FilePath → List FilePath → Action FilePath
canonical_from roots target [] = pure target
canonical_from roots target (directory ∷ directories) = elim (relative directory target) [
  | none ↦ canonical_from roots target directories
  | some rest ↦
      catch (do canonical ← real_path roots directory; pure (canonical ++ rest))
        (λ e. canonical_from roots target directories)
]

-- `canonicalizeTrustedDirectoryPrefix`
unfoldable pub canonicalize_trusted_directory_prefix : Roots → FilePath → Action FilePath
canonicalize_trusted_directory_prefix roots target =
    canonical_from roots target (trusted_directories roots)

-- `prepareCacheDirectory`, with its first lines.
unfoldable pub prepare_resolved_directory : Roots → FilePath → Action FilePath
prepare_resolved_directory roots absolute_target = do
  target ← canonicalize_trusted_directory_prefix roots absolute_target
  prepare_cache_directory target
  pure target
