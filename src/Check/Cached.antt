-- ===== src/Check/Cached.antt =====
-- The state that `readState` gives: a candidate in it has a stable version, so that it can be
-- compared with the installed one.
use salience.Base.{◌≡◌, refl, Text, List, [], ◌∷◌, Option, none, some}
use salience.Json.{Value}
use salience.Cache.Disk.{FilePath}
use salience.Cache.Action.{Action, Failure}
use salience.Cache.Action.Rules.{
  Keeps, Anything, Always, Keeps-Always, Keeps-pure, Keeps-throw, Keeps-if, Keeps-catch, Keeps-bind,
}
use salience.Cache.Guard.{safe_directory}
use salience.Cache.Guard.Steady.{Steady}
use salience.Cache.Guard.Reads.{Keeps-guarded, Keeps-entry_read}
use salience.Update.State.{State, empty_state}
use salience.Update.State.Normalize.{normalize_state}
use salience.Update.State.Normalize.Stable.{HasStable, normalize_state-HasStable}
use salience.Operation.Store.{
  Operation, read_state, first_state, read_generation, skip_generation, ends_read, state_or,
}

abbrev pub IsReadable : State → Type 0
IsReadable s = HasStable s.candidate

pub unasked : Steady Always
unasked = record { called = λ w d p. tt; lost = λ w p. tt }

abbrev pub IfReadable : Option State → Type 0
IfReadable none = Unit
IfReadable (some s) = IsReadable s

normalize_state-IfReadable : (v : Value) (i : Option Text) → IfReadable (normalize_state v i)
normalize_state-IfReadable v i =
    of_option (normalize_state v i) (λ s e. normalize_state-HasStable v i s e)
  where
    of_option : (o : Option State) → ((s : State) → o ≡ some s → IsReadable s) → IfReadable o
    of_option none k = tt
    of_option (some s) k = k s refl

Gives-read_generation :
    (i : Option Text) (d : FilePath) → Keeps Always IfReadable (read_generation i d)
unfolding read_generation
Gives-read_generation i d = Keeps-entry_read unasked d safe_directory none λ m _.
    Keeps-bind {R = Anything} (Keeps-Always _)
      (λ v _. Keeps-pure _ (normalize_state-IfReadable v i))

Gives-skip_generation : (e : Failure) → Keeps Always IfReadable (skip_generation e)
Gives-skip_generation e = Keeps-if (ends_read e) (λ _. Keeps-throw e) (λ _. Keeps-pure none tt)

Gives-state_or :
    (o : Option State) {next : Action State}
    → IfReadable o
    → Keeps Always IsReadable next
    → Keeps Always IsReadable (state_or o next)
Gives-state_or none r k = k
Gives-state_or (some s) r k = Keeps-pure s r

empty_state-IsReadable : (i : Option Text) → IsReadable (empty_state i)
unfolding empty_state
empty_state-IsReadable i = tt

Gives-first_state :
    (i : Option Text) (l : List Operation) → Keeps Always IsReadable (first_state i l)
unfolding first_state
Gives-first_state i [] = Keeps-pure (empty_state i) (empty_state-IsReadable i)
Gives-first_state i (o ∷ l) =
    Keeps-bind (Keeps-catch (Gives-read_generation i o.directory) Gives-skip_generation)
      λ t r. Gives-state_or t r (Gives-first_state i l)

-- In every world, a candidate of the state that `readState` gives has a stable version.
pub read_state-IsReadable :
    (d : FilePath) (i : Option Text) → Keeps Always IsReadable (read_state d i)
unfolding read_state
read_state-IsReadable d i =
    Keeps-guarded unasked
      (Keeps-bind {R = Anything} (Keeps-Always _) (λ l _. Gives-first_state i _))
