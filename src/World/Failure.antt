-- ===== src/World/Failure.antt =====
-- A call that fails has failed at one of its steps. There is one lemma for each kind of step that
-- only tests; it is applied to the code from that step on.
use stream_pay_contracts.Base.{◌≡◌, refl, Bool, true, false, Option, none, some, subst}
use stream_pay_contracts.Error.{Error, Result, ok, err}
use stream_pay_contracts.World.{
  World, Outcome, done, trap, continue, fail, Action, raise_if, or_raise, try, unwrap, ◌>>=◌, ◌>>◌,
}

module _ {T B : Type 0} {w w' : World T} {x : Error} where
  pub past_raise_if :
      (c : Bool) (e : Error) (k : Action T B)
      → (raise_if c e >> k) w ≡ fail x w'
      → (c ≡ false → k w ≡ fail x w' → w' ≡ w)
      → w' ≡ w
  past_raise_if true e k h f = cc
  past_raise_if false e k h f = f refl h

  -- A test in a sequence that is itself the first step.
  pub past_inner_raise_if :
      {A : Type 0} (c : Bool) (e : Error) (n : Action T A) (k : Action T B)
      → (raise_if c e >> n >> k) w ≡ fail x w'
      → ((n >> k) w ≡ fail x w' → w' ≡ w)
      → w' ≡ w
  past_inner_raise_if true e n k h f = cc
  past_inner_raise_if false e n k h f = f h

  pub past_or_raise :
      {A : Type 0} (o : Option A) (e : Error) (k : A → Action T B)
      → (or_raise o e >>= k) w ≡ fail x w'
      → ((a : A) → o ≡ some a → k a w ≡ fail x w' → w' ≡ w)
      → w' ≡ w
  past_or_raise none e k h f = cc
  past_or_raise (some a) e k h f = f a refl h

  pub past_try :
      {A : Type 0} (r : Result A) (k : A → Action T B)
      → (try r >>= k) w ≡ fail x w'
      → ((a : A) → r ≡ ok a → k a w ≡ fail x w' → w' ≡ w)
      → w' ≡ w
  past_try (err e) k h f = cc
  past_try (ok a) k h f = f a refl h

module _ {ℓ} {C : Type ℓ} {T B : Type 0} {w w' : World T} {x : Error} where
  -- A missing value traps.
  pub past_unwrap :
      {A : Type 0} (o : Option A) (k : A → Action T B)
      → (unwrap o >>= k) w ≡ fail x w'
      → ((a : A) → k a w ≡ fail x w' → C)
      → C
  past_unwrap none k h f = cc
  past_unwrap (some a) k h f = f a h

fail-error :
    {T A : Type 0} {x e : Error} {w w' : World T}
    → ◌≡◌ {A = Outcome T A} (fail e w) (fail x w')
    → e ≡ x
fail-error h = cc

-- The error that a failing call returns is that of the step at which it failed.
module _ {T B : Type 0} (P : Error → Type 0) {w w' : World T} {x : Error} where
  pub blame_raise_if :
      (c : Bool) (e : Error) (k : Action T B)
      → (raise_if c e >> k) w ≡ fail x w'
      → (c ≡ true → P e)
      → (c ≡ false → k w ≡ fail x w' → P x)
      → P x
  blame_raise_if true e k h here f = subst P (fail-error h) (here refl)
  blame_raise_if false e k h here f = f refl h

  pub blame_or_raise :
      {A : Type 0} (o : Option A) (e : Error) (k : A → Action T B)
      → (or_raise o e >>= k) w ≡ fail x w'
      → (o ≡ none → P e)
      → ((a : A) → o ≡ some a → k a w ≡ fail x w' → P x)
      → P x
  blame_or_raise none e k h here f = subst P (fail-error h) (here refl)
  blame_or_raise (some a) e k h here f = f a refl h

  pub blame_try :
      {A : Type 0} (r : Result A) (k : A → Action T B)
      → (try r >>= k) w ≡ fail x w'
      → ((e : Error) → r ≡ err e → P e)
      → ((a : A) → r ≡ ok a → k a w ≡ fail x w' → P x)
      → P x
  blame_try (err e) k h here f = subst P (fail-error h) (here e refl)
  blame_try (ok a) k h here f = f a refl h

  pub blame_unwrap :
      {A : Type 0} (o : Option A) (k : A → Action T B)
      → (unwrap o >>= k) w ≡ fail x w'
      → ((a : A) → o ≡ some a → k a w ≡ fail x w' → P x)
      → P x
  blame_unwrap none k h f = cc
  blame_unwrap (some a) k h f = f a refl h

  -- A first step that leaves the world alone.
  pub blame_reading :
      {A : Type 0} (m : Action T A) (k : A → Action T B)
      → (m >>= k) w ≡ fail x w'
      → ((e : Error) (v : World T) → m w ≡ fail e v → P e)
      → ((a : A) (v : World T) → m w ≡ done a v → v ≡ w)
      → ((a : A) → k a w ≡ fail x w' → P x)
      → P x
  blame_reading {A} m k h here same f = by_case (m w) refl h
    where
      by_case : (o : Outcome T A) → m w ≡ o → continue o k ≡ fail x w' → P x
      by_case (done a v) e h = f a (subst (λ u. k a u ≡ fail x w') (same a v e) h)
      by_case (fail y v) e h = subst P (fail-error h) (here y v e)
      by_case trap e h = cc

module _ {T B : Type 0} (P : Error → Type 0) (w : World T) {w' : World T} {x : Error} where
  -- A test in a sequence that is itself the first step.
  pub blame_inner_raise_if :
      {A : Type 0} (c : Bool) (e : Error) (n : Action T A) (k : Action T B)
      → (raise_if c e >> n >> k) w ≡ fail x w'
      → (c ≡ true → P e)
      → (c ≡ false → (n >> k) w ≡ fail x w' → P x)
      → P x
  blame_inner_raise_if true e n k h here f = subst P (fail-error h) (here refl)
  blame_inner_raise_if false e n k h here f = f refl h
