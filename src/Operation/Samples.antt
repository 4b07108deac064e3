-- ===== src/Operation/Samples.antt =====
-- A disk with the directories of operations, for the runs.
use salience.Base.{refl, ℕ, Text, codes, some, none, true, [], ◌∷◌}
use salience.Json.{Value, object, object_of, string, integer, pos}
use salience.Cache.Disk.{FilePath, Metadata, Node, Disk, Kind}
use salience.Cache.Action.{World, Environment, Token}
use salience.Cache.Change.Below.{Contained}
use salience.Operation.Claim.{HeldOperation}

abbrev pub metadata : Kind → ℕ → Metadata
metadata kind ino = record {
  kind = kind;
  dev = 1;
  ino = ino;
  mode = 448;
  birthtime = 7;
  size = 4;
  mtime = 9;
}

abbrev pub cache : FilePath
cache = codes "cache" ∷ []

abbrev pub pending_path : FilePath
pending_path = codes "cache" ∷ codes "pending-00000000000000000001" ∷ []

abbrev pub claim_path : FilePath
claim_path = codes "cache" ∷ codes "active-claim" ∷ []

abbrev pub owner_token : Text
owner_token = codes "0123456789abcdef0123456789abcdef"

abbrev pub owner : Value
owner = object (
    object_of (
      (codes "pid", integer (pos 7))
      ∷ (codes "token", string owner_token)
      ∷ (codes "generation", string (codes "1"))
      ∷ []))

abbrev pub directory_node : ℕ → Node
directory_node ino = record { meta = metadata Kind.directory ino; content = none }

abbrev pub disk : Disk
disk =
    (cache, directory_node 2)
    ∷ (pending_path, directory_node 3)
    ∷ (claim_path, directory_node 4)
    ∷ (
      codes "cache" ∷ codes "active-claim" ∷ codes "owner.json" ∷ [],
      record { meta = metadata Kind.file 5; content = some owner },
    )
    ∷ []

abbrev pub quiet : Environment
quiet = record {
  interfere = λ t d. d;
  fault = λ t. none;
  now = λ t. 0;
  created = λ t. metadata Kind.other 6;
  random = λ t. codes "ab";
}

abbrev pub token : Token
token = record {
  directory = cache;
  ancestor_snapshots = (cache, metadata Kind.directory 2) ∷ [];
  trusted = true;
}

abbrev pub world : World
world = record { disk = disk; tick = 0; token = some token; log = []; env = quiet }

pub contained : Contained cache world
contained = record { token_of = refl; below = tt }

abbrev pub held : HeldOperation
held = record { generation = 1; token = owner_token; directory = pending_path }

abbrev pub fingerprint : Metadata → Text
fingerprint m = []
