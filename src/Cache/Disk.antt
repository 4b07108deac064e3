-- ===== src/Cache/Disk.antt =====
-- The file system as the update check sees it: the calls of `node:fs/promises` that it makes.
-- A path is the list of its components below the root, and a node a path with its metadata and,
-- for a file, the value that its text holds as JSON.
use salience.Base.{
  ℕ, Text, text_eq, List, [], ◌∷◌, ◌++◌, Bool, true, false, not, ◌&&◌, Option, none, some, ◌==◌,
  keep, any, if◌then◌else◌,
}
use salience.Base.Result.{Result, ok, err}
use salience.Json.{Value}

abbrev pub FilePath : Type 0
FilePath = List Text

unfoldable pub path_eq : FilePath → FilePath → Bool
unfolding text_eq
path_eq [] [] = true
path_eq [] (t ∷ ts) = false
path_eq (s ∷ ss) [] = false
path_eq (s ∷ ss) (t ∷ ts) = text_eq s t && path_eq ss ts

-- The components of the second path behind the first, where it begins with the first.
unfoldable pub relative : FilePath → FilePath → Option FilePath
unfolding text_eq
relative [] t = some t
relative (s ∷ ss) [] = none
relative (s ∷ ss) (t ∷ ts) = let rest = relative ss ts in if text_eq s t then rest else none

-- `path.dirname`
abbrev pub parent : FilePath → FilePath
parent [] = []
parent (t ∷ []) = []
parent (t ∷ u ∷ us) = t ∷ parent (u ∷ us)

pub data Kind : Type 0 where
  directory file symlink other : Kind

-- `lstat` with `bigint: true`.
pub record Metadata : Type 0 where
  pub kind : Kind
  pub dev : ℕ
  pub ino : ℕ
  pub mode : ℕ
  pub birthtime : ℕ
  pub size : ℕ
  pub mtime : ℕ

pub record Node : Type 0 where
  pub meta : Metadata
  pub content : Option Value

pub data Errno : Type 0 where
  enoent eexist enotempty eperm einval : Errno

abbrev pub Disk : Type 0
Disk = List (FilePath × Node)

unfoldable pub find : FilePath → Disk → Option Node
unfolding path_eq
find p [] = none
find p ((q, n) ∷ d) = if path_eq q p then some n else find p d

abbrev pub is_directory : Metadata → Bool
is_directory m = elim m.kind [ directory ↦ true | _ ↦ false ]

abbrev pub is_file : Metadata → Bool
is_file m = elim m.kind [ file ↦ true | _ ↦ false ]

abbrev pub is_symlink : Metadata → Bool
is_symlink m = elim m.kind [ symlink ↦ true | _ ↦ false ]

unfoldable pub lstat : FilePath → Disk → Result Errno Metadata
lstat p d = elim (find p d) [ none ↦ err enoent | some n ↦ ok n.meta ]

-- The root is there without an entry of its own.
unfoldable pub has_directory : FilePath → Disk → Bool
has_directory [] d = true
has_directory (t ∷ ts) d = elim (find (t ∷ ts) d) [ none ↦ false | some n ↦ is_directory n.meta ]

-- A new entry, as `mkdir` and an exclusive `open` make it.
unfoldable pub add_entry : FilePath → Node → Disk → Result Errno Disk
add_entry p n d = elim (find p d) [
  | some _ ↦ err eexist
  | none ↦ if has_directory (parent p) d then ok ((p, n) ∷ d) else err enoent
]

abbrev pub is_below : FilePath → FilePath → Bool
is_below p q = elim (relative p q) [ none ↦ false | some [] ↦ false | some (t ∷ ts) ↦ true ]

abbrev pub is_empty_directory : FilePath → Disk → Bool
is_empty_directory p d = not (any (λ e. is_below p e.0) d)

abbrev move : FilePath → FilePath → FilePath → FilePath
move source destination p = elim (relative source p) [ none ↦ p | some rest ↦ destination ++ rest ]

unfoldable pub move_entries : FilePath → FilePath → Disk → Disk
unfolding relative
move_entries source destination [] = []
move_entries source destination ((p, n) ∷ d) =
    (move source destination p, n) ∷ move_entries source destination d

-- A rename onto a directory replaces it only where it is empty, and onto a file only a file does.
abbrev may_replace : Metadata → Option Node → FilePath → Disk → Option Errno
may_replace m none destination d = none
may_replace m (some n) destination d =
    if is_directory m
    then (if not (is_directory n.meta)
        then some einval
        else if is_empty_directory destination d
        then none
        else some enotempty)
    else (if is_directory n.meta then some einval else none)

unfoldable pub rename : FilePath → FilePath → Disk → Result Errno Disk
rename source destination d = elim (find source d) [
  | none ↦ err enoent
  | some n ↦ elim (may_replace n.meta (find destination d) destination d) [
    | some e ↦ err e
    | none ↦
        if has_directory (parent destination) d
        then ok (move_entries source destination (keep (λ e. not (path_eq e.0 destination)) d))
        else err enoent
  ]
]

-- `rm` without `recursive`.
unfoldable pub remove : FilePath → Disk → Result Errno Disk
remove p d = elim (find p d) [
  | none ↦ err enoent
  | some n ↦ if is_directory n.meta then err einval else ok (keep (λ e. not (path_eq e.0 p)) d)
]

-- What is written through a handle lands in the file with its inode, wherever that is.
unfoldable pub write_inode : ℕ → ℕ → ℕ → Value → Disk → Disk
write_inode dev ino size v [] = []
write_inode dev ino size v ((p, n) ∷ d) =
    (
      p,
      (if n.meta.dev == dev && n.meta.ino == ino
          then record { meta = record (n.meta) { size = size }; content = some v }
          else n),
    )
    ∷ write_inode dev ino size v d

-- The names in a directory, with the metadata of the entries.
unfoldable pub read_directory : FilePath → Disk → List (Text × Metadata)
unfolding relative
read_directory p [] = []
read_directory p ((q, n) ∷ d) =
    let rest = read_directory p d in
    elim (relative p q) [ some (t ∷ []) ↦ (t, n.meta) ∷ rest | _ ↦ rest ]
