-- ===== src/Cache/Action/Rules.antt =====
-- What an action keeps and returns in every environment, with a rule for each way to build one.
use salience.Base.{suc, ◌≡◌, refl, List, [], ◌++◌, Bool, true, false, Option, if◌then◌else◌}
use mathlib.Core.List.{append-nil}
use mathlib.Core.Path.{subst, sym}
use salience.Base.Result.{Result, ok, err}
use salience.Cache.Disk.{Metadata, Disk, Errno}
use salience.Cache.Action.{
  World, Action, Failure, Token, Change, pure, throw, catch, ◌>>=◌, ◌>>◌, call, current_token,
  distrust, now, random_text, continue, on_error, finish, faulty, distrusted,
}

-- After the action `P` holds, and `R` of what it returned.
unfoldable pub After {ℓ} :
    {A : Type ℓ} → (World → Type 0) → (A → Type 0) → Result Failure A × World → Type 0
After P R (ok a, w) = R a × P w
After P R (err e, w) = P w

abbrev pub Anything {ℓ} : {A : Type ℓ} → A → Type 0
Anything a = Unit {0}

-- The action keeps `P`, whether it returns or throws, and what it returns satisfies `R`.
pub record Keeps {ℓ} {A : Type ℓ} (P : World → Type 0) (R : A → Type 0) (m : Action A)
    : Type 0 where
  pub at : (w : World) → P w → After P R (m w)

abbrev pub Always : World → Type 0
Always w = Unit

-- Nothing is asked of the world.
pub Keeps-Always {ℓ} : {A : Type ℓ} (m : Action A) → Keeps Always Anything m
unfolding After
Keeps-Always {A} m = record { at = λ w p. after (m w) }
  where
    after : (r : Result Failure A × World) → After Always Anything r
    after (ok a, w) = (tt, tt)
    after (err e, w) = tt

module _ {ℓ} {A : Type ℓ} (P : World → Type 0) (R : A → Type 0) where
  pure-After : (a : A) (w : World) → R a → P w → After P R (pure a w)
  unfolding pure After
  pure-After a w r p = (r, p)

  throw-After : (e : Failure) (w : World) → P w → After P R (throw e w)
  unfolding throw After
  throw-After e w p = p

  on_error-After :
      (h : Failure → Action A) (r : Result Failure A × World)
      → After P R r
      → ((e : Failure) → Keeps P R (h e))
      → After P R (on_error h r)
  unfolding After
  on_error-After h (ok a, w) p k = p
  on_error-After h (err e, w) p k = (k e).at w p

  catch-After :
      (m : Action A) (h : Failure → Action A) (w : World)
      → After P R (m w)
      → ((e : Failure) → Keeps P R (h e))
      → After P R (catch m h w)
  unfolding catch
  catch-After m h w = on_error-After h (m w)

  weaken-After :
      (S : A → Type 0) (r : Result Failure A × World)
      → After P R r
      → ((a : A) → R a → S a)
      → After P S r
  unfolding After
  weaken-After S (ok a, w) (r, p) f = (f a r, p)
  weaken-After S (err e, w) p f = p

module _ {ℓ κ} {A : Type ℓ} {B : Type κ} (P : World → Type 0) (R : A → Type 0)
    (S : B → Type 0) where
  continue-After :
      (f : A → Action B) (r : Result Failure A × World)
      → After P R r
      → ((a : A) → R a → Keeps P S (f a))
      → After P S (continue f r)
  unfolding After
  continue-After f (ok a, w) (r, p) k = (k a r).at w p
  continue-After f (err e, w) p k = p

  bind-After :
      (m : Action A) (f : A → Action B) (w : World)
      → After P R (m w)
      → ((a : A) → R a → Keeps P S (f a))
      → After P S ((m >>= f) w)
  unfolding ◌>>=◌
  bind-After m f w = continue-After f (m w)

module _ {ℓ} {A : Type ℓ} (P : World → Type 0) where
  finish-After :
      (changes : List Change) (w : World) (d : Disk)
      → ((d' : Disk) → P (record w { disk = d'; tick = suc w.tick }))
      → ((d' : Disk) → P (record w { disk = d'; tick = suc w.tick; log = w.log ++ changes }))
      → (r : Result Errno (A × Disk)) → After P Anything (finish w d changes r)
  unfolding After
  finish-After changes w d k l (err e) = k d
  finish-After changes w d k l (ok (a, d')) = (tt, l d')

  call-After :
      (changes : List Change) (f : Metadata → Disk → Result Errno (A × Disk)) (w : World)
      → ((d' : Disk) → P (record w { disk = d'; tick = suc w.tick }))
      → ((d' : Disk) → P (record w { disk = d'; tick = suc w.tick; log = w.log ++ changes }))
      → After P Anything (call changes f w)
  unfolding call
  call-After changes f w k l =
      let d = w.env.interfere w.tick w.disk in
      finish-After changes w d k l (faulty (w.env.fault w.tick) (f (w.env.created w.tick) d))

module _ (P : World → Type 0) where
  token-After :
      (R : Option Token → Type 0) (w : World) → R w.token → P w → After P R (current_token w)
  unfolding current_token After
  token-After R w r p = (r, p)

  now-After : (w : World) → P (record w { tick = suc w.tick }) → After P Anything (now w)
  unfolding now After
  now-After w p = (tt, p)

  random_text-After :
      (w : World) → P (record w { tick = suc w.tick }) → After P Anything (random_text w)
  unfolding random_text After
  random_text-After w p = (tt, p)

  distrust-After :
      (w : World) → P (record w { token = distrusted w.token }) → After P Anything (distrust w)
  unfolding distrust After
  distrust-After w p = (tt, p)

module _ {P : World → Type 0} where
  module _ {ℓ} {A : Type ℓ} {R : A → Type 0} where
    pub Keeps-pure : (a : A) → R a → Keeps P R (pure a)
    Keeps-pure a r = record { at = λ w. pure-After P R a w r }

    pub Keeps-throw : (e : Failure) → Keeps P R (throw e)
    Keeps-throw e = record { at = λ w p. throw-After P R e w p }

    pub Keeps-if :
        (b : Bool) {m n : Action A}
        → (b ≡ true → Keeps P R m)
        → (b ≡ false → Keeps P R n)
        → Keeps P R (if b then m else n)
    Keeps-if true f g = f refl
    Keeps-if false f g = g refl

    pub Keeps-catch :
        {m : Action A} {h : Failure → Action A}
        → Keeps P R m
        → ((e : Failure) → Keeps P R (h e))
        → Keeps P R (catch m h)
    Keeps-catch {m} {h} k l = record { at = λ w p. catch-After P R m h w (k.at w p) l }

    pub Keeps-weaken :
        {S : A → Type 0} {m : Action A} → Keeps P R m → ((a : A) → R a → S a) → Keeps P S m
    Keeps-weaken {S} {m} k f = record { at = λ w p. weaken-After P R S (m w) (k.at w p) f }

  pub Keeps-bind {ℓ κ} :
      {A : Type ℓ} {B : Type κ} {R : A → Type 0} {S : B → Type 0} {m : Action A} {f : A → Action B}
      → Keeps P R m
      → ((a : A) → R a → Keeps P S (f a))
      → Keeps P S (m >>= f)
  Keeps-bind {R} {S} {m} {f} k l = record { at = λ w p. bind-After P R S m f w (k.at w p) l }

  pub Keeps-then {κ} :
      {B : Type κ} {S : B → Type 0} {m : Action (Unit {0})} {n : Action B}
      → Keeps P Anything m
      → Keeps P S n
      → Keeps P S (m >> n)
  Keeps-then k l = Keeps-bind k (λ _ _. l)

  pub Keeps-call {ℓ} :
      {A : Type ℓ} (changes : List Change) (f : Metadata → Disk → Result Errno (A × Disk))
      → ((w : World) (d : Disk) → P w → P (record w { disk = d; tick = suc w.tick }))
      → ((w : World) (d : Disk)
          → P w
          → P (record w { disk = d; tick = suc w.tick; log = w.log ++ changes }))
      → Keeps P Anything (call changes f)
  Keeps-call changes f k l = record {
    at = λ w p. call-After P changes f w (λ d. k w d p) (λ d. l w d p);
  }

  pub Keeps-read {ℓ} :
      {A : Type ℓ} (f : Metadata → Disk → Result Errno (A × Disk))
      → ((w : World) (d : Disk) → P w → P (record w { disk = d; tick = suc w.tick }))
      → Keeps P Anything (call [] f)
  Keeps-read f k = Keeps-call [] f k λ w d p.
      subst (λ l. P (record w { disk = d; tick = suc w.tick; log = l })) (sym (append-nil w.log))
        (k w d p)

  pub Keeps-current_token :
      {R : Option Token → Type 0} → ((w : World) → P w → R w.token) → Keeps P R current_token
  Keeps-current_token k = record { at = λ w p. token-After P _ w (k w p) p }

  pub Keeps-distrust :
      ((w : World) → P w → P (record w { token = distrusted w.token })) → Keeps P Anything distrust
  Keeps-distrust k = record { at = λ w p. distrust-After P w (k w p) }

  pub Keeps-now : ((w : World) → P w → P (record w { tick = suc w.tick })) → Keeps P Anything now
  Keeps-now k = record { at = λ w p. now-After P w (k w p) }

  pub Keeps-random_text :
      ((w : World) → P w → P (record w { tick = suc w.tick })) → Keeps P Anything random_text
  Keeps-random_text k = record { at = λ w p. random_text-After P w (k w p) }

  -- An error that `p` holds of gives `a`; the others are thrown again.
  pub Keeps-recover {ℓ} :
      {A : Type ℓ} {R : A → Type 0} (p : Failure → Bool) (a : A) {m : Action A}
      → R a
      → Keeps P R m
      → Keeps P R (catch m λ e. if p e then pure a else throw e)
  Keeps-recover p a r k =
      Keeps-catch k λ e. Keeps-if (p e) (λ _. Keeps-pure a r) (λ _. Keeps-throw e)
