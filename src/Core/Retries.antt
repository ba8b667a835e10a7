-- ===== src/Core/Retries.antt =====
-- The loop `while (should_reconnect()) { sleep…(); reconnect(); }` of `client` and `subscriber`
-- (sources/core/client.cpp, sources/core/subscriber.cpp), over any state and any round.
use cpp_redis.Prelude.{
  ℕ, zero, suc, ◌+◌, ◌≤◌, Bool, false, List, ◌==◌, ◌≡◌, refl, sym, ap, ◌∙◌, arith, Bool-cases, inl,
  inr, if◌then◌else◌, ℤ, pos, negsuc, ltb,
}
use cpp_redis.Core.Sentinel.{Incoming}

-- What happens while an attempt goes on: whether another thread cancels it while it sleeps, and what
-- the sentinel is sent.
pub record Meanwhile : Type 0 where
  pub cancelled : Bool
  pub incoming : List Incoming

-- `m_max_reconnects == -1 || attempts < m_max_reconnects`
unfoldable pub attempts_left : ℕ → ℤ → Bool
attempts_left attempts (pos n) = ltb attempts n
attempts_left attempts (negsuc n) = n == 0

-- When as many attempts as the limit allows are over, none is left.
pub attempts_left-limit : (n a : ℕ) → n ≤ a → attempts_left a (pos n) ≡ false
unfolding attempts_left
attempts_left-limit n a h = ground arith

module _ {X R : Type 0} (again : X → Bool) (round : (X → R) → X → R) (done exhausted : X → R) where
  -- That many rounds at most; `exhausted` is for a loop that wants one more.
  unfoldable pub retry : ℕ → X → R
  retry zero x = if again x then exhausted x else done x
  retry (suc f) x = let next = round (retry f) x in if again x then next else done x

  pub retry-done : (f : ℕ) (x : X) → again x ≡ false → retry f x ≡ done x
  unfolding retry
  retry-done zero x h = rw h refl
  retry-done (suc f) x h = rw h refl

  -- What every state has that is reached, the end has.
  module _ (P : X → Type 0) (Q : R → Type 0) (over : (x : X) → P x → Q (done x))
      (out : (x : X) → P x → Q (exhausted x))
      (once : (k : X → R) → ((y : X) → P y → Q (k y)) → (x : X) → P x → Q (round k x)) where
    retry_step : (r : R) (x : X) → P x → Q r → Q (if again x then r else done x)
    retry_step r x h q = elim (Bool-cases (again x)) [ inl e ↦ rw e q | inr e ↦ rw e (over x h) ]

    pub retry-keeps : (f : ℕ) (x : X) → P x → Q (retry f x)
    unfolding retry
    retry-keeps zero x h = retry_step (exhausted x) x h (out x h)
    retry-keeps (suc f) x h =
        retry_step (round (retry f) x) x h (once (retry f) (retry-keeps f) x h)

  -- `After a x` says that `a` attempts are over in `x`, of the `n` that are allowed.
  module _ (n : ℕ) (After : ℕ → X → Type 0)
      (stop : (a : ℕ) (x : X) → After a x → n ≤ a → again x ≡ false)
      (same : (a : ℕ) (k l : X → R) (x : X)
        → After a x
        → ((y : X) → After (a + 1) y → k y ≡ l y)
        → round k x ≡ round l x) where
    -- More rounds than are left make no difference.
    pub retry-Agree :
        (f g a : ℕ) (x : X) → After a x → n ≤ a + f → n ≤ a + g → retry f x ≡ retry g x
    unfolding retry
    retry-Agree zero g a x h hf hg =
        let over = stop a x h (omega arith) in retry-done zero x over ∙ sym (retry-done g x over)
    retry-Agree (suc f) zero a x h hf hg =
        let over = stop a x h (omega arith) in
        retry-done (suc f) x over ∙ sym (retry-done zero x over)
    retry-Agree (suc f) (suc g) a x h hf hg =
        ap (λ r. if again x then r else done x)
          (same a (retry f) (retry g) x h
            (λ y hy. retry-Agree f g (a + 1) y hy (omega arith) (omega arith)))
