-- ===== src/Cache/Guard/Reads.antt =====
-- What guarded reads keep and return, by what is read.
use salience.Base.{◌≡◌, Bool, true, Option, some}
use salience.Cache.Disk.{FilePath, Metadata}
use salience.Cache.Action.{World, Action, now}
use salience.Cache.Action.Rules.{
  Keeps, Anything, Keeps-pure, Keeps-throw, Keeps-catch, Keeps-bind, Keeps-then, Keeps-now,
}
use salience.Cache.Guard.{guarded_cache_read, guarded_cache_entry_read}
use salience.Cache.Guard.Steady.{Steady, Keeps-verify_cache_token, Keeps-stable_cache_entry}

module _ {P : World → Type 0} (s : Steady P) where
  pub Keeps-clock : Keeps P Anything now
  Keeps-clock = Keeps-now (λ w p. s.called w w.disk p)

  pub Keeps-guarded {ℓ} :
      {A : Type ℓ} {R : A → Type 0} {read : Action A}
      → Keeps P R read
      → Keeps P R (guarded_cache_read read)
  unfolding guarded_cache_read
  Keeps-guarded k = Keeps-then (Keeps-verify_cache_token s) (
      Keeps-bind (Keeps-catch k (λ e. Keeps-then (Keeps-verify_cache_token s) (Keeps-throw e)))
        (λ a r. Keeps-then (Keeps-verify_cache_token s) (Keeps-pure a r)))

  pub Keeps-entry_read {ℓ} :
      {A : Type ℓ} {R : A → Type 0} (target : FilePath) (validate : Metadata → Bool)
      {read : Metadata → Action A} (expected : Option Metadata)
      → ((m : Metadata) → validate m ≡ true → Keeps P R (read m))
      → Keeps P R (guarded_cache_entry_read target validate read expected)
  unfolding guarded_cache_entry_read
  Keeps-entry_read target validate expected k =
      Keeps-bind (Keeps-stable_cache_entry s target validate expected true) λ m v.
        Keeps-bind
          (Keeps-catch (k m v.0) (λ e.
            Keeps-bind (Keeps-stable_cache_entry s target validate (some m) true)
              (λ _ _. Keeps-throw e)))
          (λ a r.
            Keeps-bind (Keeps-stable_cache_entry s target validate (some m) true)
              (λ _ _. Keeps-pure a r))
