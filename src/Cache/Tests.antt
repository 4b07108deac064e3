-- ===== src/Cache/Tests.antt =====
-- Runs of the cache code, on a disk that other processes leave alone.
use salience.Base.{◌≡◌, refl, ℕ, codes, some, none, true, false, Bool, [], ◌∷◌, List}
use salience.Base.Result.{Result, ok, err}
use salience.Json.{null}
use salience.Cache.Disk.{FilePath, Metadata, Disk, Kind}
use salience.Cache.Action.{
  World, Environment, Token, Change, Failure, path_changed, renamed, made_directory, wrote_file,
  removed,
}
use salience.Cache.Action.Rules.{After, Keeps}
use salience.Cache.Guard.{is_same_file, is_expected, safe_regular_file}
use salience.Cache.Change.{change_run, cache_mkdir, cache_write_file, cache_rename, cache_rm}
use salience.Cache.Prefix.{Roots, prepare_resolved_directory}
use salience.Cache.Prefix.Leads.{Leads, IsCanonicalOf, prepare_resolved_directory-Leads}
use salience.Cache.Change.Below.{Contained}
use salience.Cache.Change.Containment.{cache_rename-Contained}
use salience.Cache.Change.Distrust.{Distrusted, Never, cache_change-Distrusted}

abbrev metadata : Kind → ℕ → Metadata
metadata kind ino = record {
  kind = kind;
  dev = 1;
  ino = ino;
  mode = 448;
  birthtime = 7;
  size = 4;
  mtime = 9;
}

abbrev cache : FilePath
cache = codes "cache" ∷ []

abbrev old_path : FilePath
old_path = codes "cache" ∷ codes "old" ∷ []

abbrev new_path : FilePath
new_path = codes "cache" ∷ codes "new" ∷ []

abbrev disk : Disk
disk =
    (cache, record { meta = metadata Kind.directory 2; content = none })
    ∷ (old_path, record { meta = metadata Kind.file 3; content = some null })
    ∷ []

abbrev quiet : Environment
quiet = record {
  interfere = λ t d. d;
  fault = λ t. none;
  now = λ t. 0;
  created = λ t. metadata Kind.other 4;
  random = λ t. [];
}

abbrev token : Bool → Token
token trusted = record {
  directory = cache;
  ancestor_snapshots = (cache, metadata Kind.directory 2) ∷ [];
  trusted = trusted;
}

abbrev world : Bool → World
world trusted = record {
  disk = disk;
  tick = 0;
  token = some (token trusted);
  log = [];
  env = quiet;
}

abbrev value_of : {A : Type 0} → Result Failure A × World → Result Failure A × List Change
value_of (r, w) = (r, w.log)

rename_run :
    value_of (cache_rename old_path new_path safe_regular_file none (world true))
    ≡ (ok (metadata Kind.file 3), renamed old_path new_path ∷ [])
unfolding change_run
rename_run = refl

contained : Contained cache (world true)
contained = record { token_of = refl; below = tt }

cache_rename-Contained_example :
    After
      (Contained cache)
      (λ m. (safe_regular_file m ≡ true) × (is_expected none m ≡ true))
      (cache_rename old_path new_path safe_regular_file none (world true))
cache_rename-Contained_example =
    (cache_rename-Contained cache old_path new_path safe_regular_file none).at (world true)
      contained

write_run :
    (value_of (cache_write_file new_path 4 null (world true))).1 ≡ wrote_file new_path null ∷ []
unfolding change_run
write_run = refl

remove_run : value_of (cache_rm old_path (world true)) ≡ (ok tt, removed old_path ∷ [])
unfolding change_run
remove_run = refl

make_run : value_of (cache_mkdir new_path (world true)) ≡ (ok tt, made_directory new_path ∷ [])
unfolding change_run
make_run = refl

outside_run : value_of (cache_rm (codes "etc" ∷ []) (world true)) ≡ (err path_changed, [])
unfolding change_run
outside_run = refl

cache_change-Distrusted_example :
    Keeps (Distrusted []) Never (cache_mkdir new_path)
    × Keeps (Distrusted []) Never (cache_write_file new_path 4 null)
    × Keeps (Distrusted []) Never (cache_rename new_path old_path safe_regular_file none)
    × Keeps (Distrusted []) Never (cache_rm new_path)
cache_change-Distrusted_example =
    cache_change-Distrusted [] new_path old_path 4 null safe_regular_file none

distrusted : Distrusted [] (world false)
distrusted = record { untrusted = refl; unchanged = refl }

-- The same file behind a write, with another size and time, and metadata without inodes.
abbrev grown : Metadata
grown = record (metadata Kind.file 3) { size = 9; mtime = 12 }

same_run : is_same_file (metadata Kind.file 3) grown ≡ true
unfolding is_same_file
same_run = refl

unnumbered_run :
    is_same_file (metadata Kind.file 0) (record (metadata Kind.file 0) { birthtime = 0 }) ≡ false
unfolding is_same_file
unnumbered_run = refl

back_run : is_same_file grown (metadata Kind.file 3) ≡ true
unfolding is_same_file
back_run = refl

-- The home directory is a link to the cache's parent.
abbrev roots : Roots
roots = record {
  home_directory = codes "home" ∷ [];
  temporary_directory = codes "tmp" ∷ [];
  resolve = λ p d. elim p [ [] ↦ ok [] | t ∷ ts ↦ ok (codes "cache" ∷ ts) ];
}

abbrev linked_path : FilePath
linked_path = codes "home" ∷ codes "new" ∷ []

prepare_run :
    value_of (prepare_resolved_directory roots linked_path (world true))
    ≡ (ok new_path, made_directory new_path ∷ [])
unfolding change_run prepare_resolved_directory
    salience.Cache.Prefix.canonicalize_trusted_directory_prefix salience.Cache.Prefix.canonical_from
    salience.Cache.Prefix.real_path salience.Cache.Prefix.trusted_directories
    salience.Cache.Prefix.path_length salience.Cache.Change.prepare_cache_directory
    salience.Cache.Change.prepare_components salience.Cache.Change.prepare_mkdir
    salience.Cache.Guard.stable_prepared_directory salience.Cache.Action.set_token
prepare_run = refl

prepare_resolved_directory-Leads_example :
    After
      (Leads roots linked_path)
      (IsCanonicalOf roots linked_path)
      (prepare_resolved_directory roots linked_path (world true))
prepare_resolved_directory-Leads_example =
    (prepare_resolved_directory-Leads roots linked_path).at (world true) (record { all = tt })
