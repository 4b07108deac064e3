-- ===== src/Cache/Action/Returns.antt =====
-- Actions that return in every world, with a rule for each way to build one.
use salience.Base.{◌≡◌, refl, Bool, true, false, if◌then◌else◌}
use salience.Base.Result.{Result, ok, err}
use salience.Cache.Action.{World, Action, Failure, pure, catch, ◌>>=◌, ◌>>◌, continue, on_error}
use salience.Cache.Action.Rules.{After, Keeps, Anything, Always}

abbrev pub IsReturned {ℓ} : {A : Type ℓ} → (A → Type 0) → Result Failure A × World → Type 0
IsReturned R (ok a, w) = R a
IsReturned R (err e, w) = ⊥

-- In every world the action returns, it does not throw, and what it returns satisfies `R`.
pub record Returns {ℓ} {A : Type ℓ} (R : A → Type 0) (m : Action A) : Type 0 where
  pub at : (w : World) → IsReturned R (m w)

module _ {ℓ} {A : Type ℓ} (R : A → Type 0) where
  pure-IsReturned : (a : A) (w : World) → R a → IsReturned R (pure a w)
  unfolding pure
  pure-IsReturned a w r = r

  on_error-IsReturned :
      (h : Failure → Action A) (r : Result Failure A × World)
      → After Always R r
      → ((e : Failure) → Returns R (h e))
      → IsReturned R (on_error h r)
  unfolding After
  on_error-IsReturned h (ok a, w) (r, _) k = r
  on_error-IsReturned h (err e, w) _ k = (k e).at w

  catch-IsReturned :
      (m : Action A) (h : Failure → Action A) (w : World)
      → After Always R (m w)
      → ((e : Failure) → Returns R (h e))
      → IsReturned R (catch m h w)
  unfolding catch
  catch-IsReturned m h w = on_error-IsReturned h (m w)

  as_After : (r : Result Failure A × World) → IsReturned R r → After Always R r
  unfolding After
  as_After (ok a, w) r = (r, tt)
  as_After (err e, w) r = tt

module _ {ℓ κ} {A : Type ℓ} {B : Type κ} (R : A → Type 0) (S : B → Type 0) where
  continue-IsReturned :
      (f : A → Action B) (r : Result Failure A × World)
      → IsReturned R r
      → ((a : A) → R a → Returns S (f a))
      → IsReturned S (continue f r)
  continue-IsReturned f (ok a, w) r k = (k a r).at w
  continue-IsReturned f (err e, w) r k = elim r [ ]

  bind-IsReturned :
      (m : Action A) (f : A → Action B) (w : World)
      → IsReturned R (m w)
      → ((a : A) → R a → Returns S (f a))
      → IsReturned S ((m >>= f) w)
  unfolding ◌>>=◌
  bind-IsReturned m f w = continue-IsReturned f (m w)

module _ {ℓ} {A : Type ℓ} {R : A → Type 0} where
  weaken-IsReturned :
      (S : A → Type 0) (r : Result Failure A × World)
      → IsReturned R r
      → ((a : A) → R a → S a)
      → IsReturned S r
  weaken-IsReturned S (ok a, w) r f = f a r
  weaken-IsReturned S (err e, w) r f = elim r [ ]

  pub Returns-weaken :
      {S : A → Type 0} {m : Action A} → Returns R m → ((a : A) → R a → S a) → Returns S m
  Returns-weaken {S} {m} k f = record { at = λ w. weaken-IsReturned S (m w) (k.at w) f }

  pub Returns-pure : (a : A) → R a → Returns R (pure a)
  Returns-pure a r = record { at = λ w. pure-IsReturned R a w r }

  pub Returns-if :
      (b : Bool) {m n : Action A}
      → (b ≡ true → Returns R m)
      → (b ≡ false → Returns R n)
      → Returns R (if b then m else n)
  Returns-if true f g = f refl
  Returns-if false f g = g refl

  -- Whatever is thrown, the handler returns.
  pub Returns-catch :
      {m : Action A} {h : Failure → Action A}
      → Keeps Always R m
      → ((e : Failure) → Returns R (h e))
      → Returns R (catch m h)
  Returns-catch {m} {h} k l = record { at = λ w. catch-IsReturned R m h w (k.at w tt) l }

  pub Keeps-Returns : {m : Action A} → Returns R m → Keeps Always R m
  Keeps-Returns {m} k = record { at = λ w p. as_After R (m w) (k.at w) }

pub Returns-bind {ℓ κ} :
    {A : Type ℓ} {B : Type κ} {R : A → Type 0} {S : B → Type 0} {m : Action A} {f : A → Action B}
    → Returns R m
    → ((a : A) → R a → Returns S (f a))
    → Returns S (m >>= f)
Returns-bind {R} {S} {m} {f} k l = record { at = λ w. bind-IsReturned R S m f w (k.at w) l }

pub Returns-then {κ} :
    {B : Type κ} {S : B → Type 0} {m : Action (Unit {0})} {n : Action B}
    → Returns Anything m
    → Returns S n
    → Returns S (m >> n)
Returns-then k l = Returns-bind k (λ _ _. l)
