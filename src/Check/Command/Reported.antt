-- ===== src/Check/Command/Reported.antt =====
-- What the command prints.
use mathlib.Core.Path.{subst}
use salience.Base.{
  ◌≡◌, refl, sym, ap₂, Text, codes, text_eq, text_eq_iff, List, [], ◌∷◌, Option, none, some,
  some_inj,
}
use salience.Json.Print.{to_text}
use salience.Cache.Action.Returns.{Returns, Returns-pure, Returns-if, Returns-bind, Returns-weaken}
use salience.Update.Decision.{
  Outcome, disabled, invalid_arguments, silent, update_available, acknowledged,
}
use salience.Check.{Runtime, CheckOptions}
use salience.Check.Justified.{IsJustified}
use salience.Check.Outcomes.{check_for_update-Returns}
use salience.Check.Acknowledge.{Clock, ended, acknowledge_update}
use salience.Check.Acknowledge.Termination.{IsPaced, IsAnswered, acknowledge_update-Returns}
use salience.Check.Command.{is_disabled, acknowledge_options, acknowledging, dispatched, run_cli}

-- An update is announced to a command without arguments only, and an acknowledgement is reported to
-- the command that names its key.
abbrev pub IsReported : List Text → Option Outcome → Type 0
IsReported arguments none = ⊥
IsReported arguments (some (silent reason)) = Unit
IsReported arguments (some (acknowledged key)) = arguments ≡ codes "--ack" ∷ key ∷ []
IsReported arguments (some (update_available n)) =
    (arguments ≡ []) × IsJustified (update_available n)

checked-IsReported : (o : Outcome) → IsJustified o → IsReported [] (some o)
checked-IsReported (silent reason) h = tt
checked-IsReported (acknowledged key) h = elim h [ ]
checked-IsReported (update_available n) h = (refl, h)

answered-IsReported :
    (flag key : Text) (o : Option Outcome)
    → flag ≡ codes "--ack"
    → IsAnswered key o
    → IsReported (flag ∷ key ∷ []) o
answered-IsReported flag key none e h = elim h [ ]
answered-IsReported flag key (some (silent reason)) e h = tt
answered-IsReported flag key (some (acknowledged k)) e h = ap₂ (λ f l. f ∷ l ∷ []) e (sym h)
answered-IsReported flag key (some (update_available n)) e h = elim h [ ]

module _ (runtime : Runtime) (options : CheckOptions) (clock : Clock) (paced : IsPaced clock) where
  Returns-acknowledging :
      (flag key : Text)
      → Returns (IsReported (flag ∷ key ∷ [])) (acknowledging runtime options clock flag key)
  unfolding to_text
  Returns-acknowledging flag key =
      Returns-if (text_eq flag (codes "--ack"))
        {m = acknowledge_update runtime (acknowledge_options runtime options clock key)}
        {n = ended (silent invalid_arguments)}
        (λ e.
          Returns-weaken
            (acknowledge_update-Returns runtime (acknowledge_options runtime options clock key)
              (λ c f. subst IsPaced (some_inj f) paced))
            (λ o h. answered-IsReported flag key o ((text_eq_iff flag (codes "--ack")).0 e) h))
        (λ _. Returns-pure (some (silent invalid_arguments)) tt)

  Returns-dispatched :
      (arguments : List Text)
      → Returns (IsReported arguments) (dispatched runtime options clock arguments)
  Returns-dispatched [] =
      Returns-bind (check_for_update-Returns runtime options)
        (λ o h. Returns-pure (some o) (checked-IsReported o h))
  Returns-dispatched (flag ∷ []) = Returns-pure (some (silent invalid_arguments)) tt
  Returns-dispatched (flag ∷ key ∷ []) = Returns-acknowledging flag key
  Returns-dispatched (flag ∷ key ∷ more ∷ arguments) =
      Returns-pure (some (silent invalid_arguments)) tt

  -- If the clock does not go back from its first reading to its second, and moves on over each wait by
  -- at least the delay that was waited, `runCli` returns a result and throws no error. An update is
  -- announced only where there are no arguments, and it is newer than the installed version; an
  -- acknowledgement is reported only for the key that the arguments name.
  pub run_cli-IsReported :
      (check_disabled : Option Text) (arguments : List Text)
      → Returns (IsReported arguments) (run_cli runtime options clock check_disabled arguments)
  unfolding run_cli
  run_cli-IsReported check_disabled arguments =
      Returns-if (is_disabled check_disabled) {m = ended (silent disabled)}
        {n = dispatched runtime options clock arguments}
        (λ _. Returns-pure (some (silent disabled)) tt) (λ _. Returns-dispatched arguments)
