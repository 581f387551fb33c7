-- ===== src/World/Inversion.antt =====
-- A call that returns has passed each of its steps. There is one lemma for each kind of step; it is
-- applied to the code from its first step on, and hands its caller what the step establishes.
use stream_pay_contracts.Base.{◌≡◌, refl, ap, Bool, true, false, Option, none, some}
use stream_pay_contracts.Error.{Error, Result, ok, err}
use stream_pay_contracts.World.{
  World, Outcome, done, fail, trap, Action, raise_if, or_raise, try, unwrap, continue, ◌>>=◌, ◌>>◌,
}

module _ {ℓ} {C : Type ℓ} {T B : Type 0} {w w' : World T} {b : B} where
  pub after_raise_if :
      (c : Bool) (e : Error) (k : Action T B)
      → (raise_if c e >> k) w ≡ done b w'
      → (c ≡ false → k w ≡ done b w' → C)
      → C
  after_raise_if true e k h f = cc
  after_raise_if false e k h f = f refl h

  -- Any first step has returned.
  pub after_any :
      {A : Type 0} (m : Action T A) (k : A → Action T B)
      → (m >>= k) w ≡ done b w'
      → ((a : A) (w₁ : World T) → m w ≡ done a w₁ → k a w₁ ≡ done b w' → C)
      → C
  after_any {A} m k h f = by_case (m w) refl h
    where
      by_case : (o : Outcome T A) → m w ≡ o → continue o k ≡ done b w' → C
      by_case (done a w₁) e h = f a w₁ e h
      by_case (fail x w₁) e h = cc
      by_case trap e h = cc

  pub after_or_raise :
      {A : Type 0} (o : Option A) (e : Error) (k : A → Action T B)
      → (or_raise o e >>= k) w ≡ done b w'
      → ((a : A) → o ≡ some a → k a w ≡ done b w' → C)
      → C
  after_or_raise none e k h f = cc
  after_or_raise (some a) e k h f = f a refl h

  pub after_try :
      {A : Type 0} (r : Result A) (k : A → Action T B)
      → (try r >>= k) w ≡ done b w'
      → ((a : A) → r ≡ ok a → k a w ≡ done b w' → C)
      → C
  after_try (err e) k h f = cc
  after_try (ok a) k h f = f a refl h

  pub after_unwrap :
      {A : Type 0} (o : Option A) (k : A → Action T B)
      → (unwrap o >>= k) w ≡ done b w'
      → ((a : A) → o ≡ some a → k a w ≡ done b w' → C)
      → C
  after_unwrap none k h f = cc
  after_unwrap (some a) k h f = f a refl h

-- A test in a sequence that is itself the first step.
pub after_inner_raise_if {ℓ} :
    {C : Type ℓ} {T A B : Type 0} (w : World T) {w' : World T} {b : B} (c : Bool) (e : Error)
    (n : Action T A) (k : Action T B)
    → (raise_if c e >> n >> k) w ≡ done b w'
    → (c ≡ false → (n >> k) w ≡ done b w' → C)
    → C
after_inner_raise_if w true e n k h f = cc
after_inner_raise_if w false e n k h f = f refl h

pub done-result :
    {T A : Type 0} {a b : A} {w w' : World T} → done a w ≡ done b w' → (a ≡ b) × (w' ≡ w)
done-result h = (cc, cc)

-- An action that returned, and the rest.
pub bind_runs :
    {T A B : Type 0} (w : World T) {w' : World T} (m : Action T A) (k : A → Action T B) {a : A}
    → m w ≡ done a w'
    → (m >>= k) w ≡ k a w'
bind_runs w m k h = ap (λ o. continue o k) h
