-- ===== src/Cache/Action.antt =====
-- Asynchronous code over the disk. Between any two calls of the file system other processes may
-- change the disk, and any call may fail: both are up to the environment, a function of the tick.
pub mod Rules
pub mod Returns
use salience.Base.{
  ℕ, suc, ◌≡◌, Text, List, [], ◌∷◌, ◌++◌, Bool, true, false, Option, none, some, if◌then◌else◌,
}
use salience.Base.Result.{Result, ok, err}
use salience.Json.{Value}
use salience.Cache.Disk.{FilePath, Metadata, Disk, Errno}

-- `failed` is a plain `Error`; the others are the classes of check-update.mjs, and the errors of
-- the file system with their `code`.
pub data Failure : Type 0 where
  errno : Errno → Failure
  path_changed operation_race identity_changed fenced failed : Failure

pub record Environment : Type 0 where
  pub interfere : ℕ → Disk → Disk
  pub fault : ℕ → Option Errno
  pub now : ℕ → ℕ
  pub created : ℕ → Metadata
  pub random : ℕ → Text

-- The object that `prepareCacheDirectory` makes for a directory.
pub record Token : Type 0 where
  pub directory : FilePath
  pub ancestor_snapshots : List (FilePath × Metadata)
  pub trusted : Bool

-- What this process has changed on the disk.
pub data Change : Type 0 where
  made_directory : FilePath → Change
  wrote_file : FilePath → Value → Change
  renamed : FilePath → FilePath → Change
  removed : FilePath → Change

pub record World : Type 0 where
  pub disk : Disk
  pub tick : ℕ
  pub token : Option Token
  pub log : List Change
  pub env : Environment

abbrev pub Action {ℓ} : Type ℓ → Type ℓ
Action A = World → Result Failure A × World

module _ {ℓ} {A : Type ℓ} where
  unfoldable pub pure : A → Action A
  pure a w = (ok a, w)

  unfoldable pub throw : Failure → Action A
  throw e w = (err e, w)

  -- `try { m } catch (error) { handler }`
  abbrev on_error : (Failure → Action A) → Result Failure A × World → Result Failure A × World
  on_error h (ok a, w) = (ok a, w)
  on_error h (err e, w) = h e w

  unfoldable pub catch : Action A → (Failure → Action A) → Action A
  catch m h w = on_error h (m w)

abbrev pub continue {ℓ κ} :
    {A : Type ℓ} {B : Type κ} → (A → Action B) → Result Failure A × World → Result Failure B × World
continue f (ok a, w) = f a w
continue f (err e, w) = (err e, w)

infixl 5 ◌>>=◌ ◌>>◌
unfoldable pub ◌>>=◌ {ℓ κ} : {A : Type ℓ} {B : Type κ} → Action A → (A → Action B) → Action B
◌>>=◌ m f w = continue f (m w)

abbrev pub ◌>>◌ {κ} : {B : Type κ} → Action (Unit {0}) → Action B → Action B
m >> k = m >>= λ _. k

-- One call of the file system, with what it changes if it succeeds.
abbrev pub finish {ℓ} :
    {A : Type ℓ} → World → Disk → List Change → Result Errno (A × Disk) → Result Failure A × World
finish w d changes (err e) = (err (errno e), record w { disk = d; tick = suc w.tick })
finish w d changes (ok (a, d')) =
    (ok a, record w { disk = d'; tick = suc w.tick; log = w.log ++ changes })

abbrev pub faulty {ℓ} : {A : Type ℓ} → Option Errno → Result Errno A → Result Errno A
faulty none r = r
faulty (some e) r = err e

unfoldable pub call {ℓ} :
    {A : Type ℓ} → List Change → (Metadata → Disk → Result Errno (A × Disk)) → Action A
call changes f w =
    let d = w.env.interfere w.tick w.disk in
    finish w d changes (faulty (w.env.fault w.tick) (f (w.env.created w.tick) d))

-- `Date.now()` and `crypto.randomBytes`
unfoldable pub now : Action ℕ
now w = (ok (w.env.now w.tick), record w { tick = suc w.tick })

unfoldable pub random_text : Action Text
random_text w = (ok (w.env.random w.tick), record w { tick = suc w.tick })

unfoldable pub current_token : Action (Option Token)
current_token w = (ok w.token, w)

unfoldable pub set_token : Token → Action (Unit {0})
set_token t w = (ok tt, record w { token = some t })

abbrev pub distrusted : Option Token → Option Token
distrusted none = none
distrusted (some t) = some (record t { trusted = false })

-- `token.trusted = false`
unfoldable pub distrust : Action (Unit {0})
distrust w = (ok tt, record w { token = distrusted w.token })
