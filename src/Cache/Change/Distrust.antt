-- ===== src/Cache/Change/Distrust.antt =====
-- A directory whose token is no longer trusted: `invalidateCacheToken` ends its use.
use salience.Base.{ℕ, suc, ◌≡◌, refl, List, [], ◌∷◌, Bool, true, false, Option, none, some, ◌&&◌}
use salience.Json.{Value}
use salience.Cache.Disk.{FilePath, Metadata, Disk}
use salience.Cache.Action.{World, Action, Token, Change, distrusted, path_changed}
use salience.Cache.Action.Rules.{
  Keeps, Keeps-throw, Keeps-if, Keeps-catch, Keeps-bind, Keeps-current_token,
}
use salience.Cache.Guard.{
  verify_token, verify_cache_token, look_twice, stable_cache_entry, guarded_cache_entry_read,
  is_enoent, is_expected,
}
use salience.Cache.Guard.Steady.{Steady, Keeps-resolve, Keeps-invalidate, Keeps-lstat, Keeps-check}
use salience.Cache.Change.{
  capture_mutation_parent_snapshots, cache_mkdir, cache_write_file, cache_rename, cache_rm,
}

abbrev IsUntrusted : Option Token → Type 0
IsUntrusted none = Unit
IsUntrusted (some t) = t.trusted ≡ false

-- No trusted token, and nothing changed since the log was `l`.
pub record Distrusted (l : List Change) (w : World) : Type 0 where
  pub untrusted : IsUntrusted w.token
  pub unchanged : w.log ≡ l

abbrev pub Never {ℓ} : {A : Type ℓ} → A → Type 0
Never a = ⊥

IsUntrusted-distrusted : (t : Option Token) → IsUntrusted t → IsUntrusted (distrusted t)
IsUntrusted-distrusted none h = h
IsUntrusted-distrusted (some t) h = refl

module _ (l : List Change) where
  called :
      (w : World) (d : Disk)
      → Distrusted l w
      → Distrusted l (record w { disk = d; tick = suc w.tick })
  called w d c = record { untrusted = c.untrusted; unchanged = c.unchanged }

  lost : (w : World) → Distrusted l w → Distrusted l (record w { token = distrusted w.token })
  lost w c = record {
    untrusted = IsUntrusted-distrusted w.token c.untrusted;
    unchanged = c.unchanged;
  }

  kept : Steady (Distrusted l)
  kept = record { called = called; lost = lost }

  Never-verify_token :
      (t : Option Token) → IsUntrusted t → Keeps (Distrusted l) Never (verify_token t)
  unfolding verify_token
  Never-verify_token none h = Keeps-throw path_changed
  Never-verify_token (some t) h =
      Keeps-if t.trusted (λ e. absurd cc) (λ _. Keeps-throw path_changed)

  Never-verify_cache_token : Keeps (Distrusted l) Never verify_cache_token
  unfolding verify_cache_token
  Never-verify_cache_token =
      Keeps-bind (Keeps-current_token {R = IsUntrusted} (λ w c. c.untrusted)) Never-verify_token

  Never-capture :
      (targets : List FilePath)
      → Keeps (Distrusted l) Never (capture_mutation_parent_snapshots targets)
  unfolding capture_mutation_parent_snapshots
  Never-capture targets = Keeps-bind Never-verify_cache_token (λ _ h. absurd h)

  Never-look_twice :
      (p : FilePath) (v : Metadata → Bool) (e : Option Metadata)
      → Keeps (Distrusted l) Never (look_twice p v e)
  unfolding look_twice
  Never-look_twice p v e = Keeps-bind (Keeps-lstat kept p) λ first _.
      Keeps-bind (Keeps-check (v first) _) λ _ _.
        Keeps-bind (Keeps-check (is_expected e first) _)
          λ _ _. Keeps-bind Never-verify_cache_token (λ _ h. absurd h)

  -- Without a trusted token no entry is ever read, and nothing is changed.
  pub guarded_cache_entry_read-Distrusted {ℓ} :
      {A : Type ℓ} (target : FilePath) (v : Metadata → Bool) (read : Metadata → Action A)
      (e : Option Metadata)
      → Keeps (Distrusted l) Never (guarded_cache_entry_read target v read e)
  unfolding guarded_cache_entry_read stable_cache_entry
  guarded_cache_entry_read-Distrusted target v read e =
      Keeps-bind
        (Keeps-bind (Keeps-resolve kept target) λ p _. Keeps-catch (Never-look_twice p v e) λ e.
          Keeps-if (true && is_enoent e)
            (λ _. Keeps-bind Never-verify_cache_token (λ _ h. absurd h))
            (λ _. Keeps-invalidate kept))
        (λ _ h. absurd h)

  -- Without a trusted token no change of the cache succeeds, and the attempt changes nothing.
  pub cache_change-Distrusted :
      (p q : FilePath) (bytes : ℕ) (value : Value) (v : Metadata → Bool) (e : Option Metadata)
      → Keeps (Distrusted l) Never (cache_mkdir p)
        × Keeps (Distrusted l) Never (cache_write_file p bytes value)
        × Keeps (Distrusted l) Never (cache_rename p q v e)
        × Keeps (Distrusted l) Never (cache_rm p)
  unfolding cache_mkdir cache_write_file cache_rename cache_rm
  cache_change-Distrusted p q bytes value v e = (
    Keeps-bind (Never-capture (p ∷ [])) (λ _ h. absurd h),
    Keeps-bind (Keeps-resolve kept p)
        (λ r _. Keeps-bind (Never-capture (r ∷ [])) (λ _ h. absurd h)),
    Keeps-bind (Keeps-resolve kept p) (λ r _.
        Keeps-bind (Keeps-resolve kept q)
          (λ t _. Keeps-bind (Never-capture (r ∷ t ∷ [])) (λ _ h. absurd h))),
    Keeps-bind (Keeps-resolve kept p)
        (λ r _. Keeps-bind (Never-capture (r ∷ [])) (λ _ h. absurd h)),
  )
