-- ===== src/Trace/Cash/Booked.antt =====
-- The token's balances against the cash book, and what keeps them in step (src/lib.rs,
-- src/events.rs).
use stream_pay_contracts.Base.{
  ℕ, ◌+◌, ◌≡◌, sym, ap, ◌∙◌, subst, Option, none, some, List, [], ◌∷◌, ◌++◌,
}
use stream_pay_contracts.Base.Int.{ℤ, ◌+ℤ◌, not_positive, is_positive, add_zero, +ℤ_assoc}
use stream_pay_contracts.Types.{Address, StreamRequest}
use stream_pay_contracts.Host.{Env, Host, MovesTokens}
use stream_pay_contracts.World.{World, Outcome, done}
use stream_pay_contracts.Events.{Event}
use stream_pay_contracts.Contract.Batch.Effect.{amounts, store_one, store_all}
use stream_pay_contracts.Contract.Cancel.Effect.{PaysIfPositive, skipped, paid}
use stream_pay_contracts.Trace.{settle}
use stream_pay_contracts.Trace.Valid.{settle-keeps}
use stream_pay_contracts.Trace.Replay.{catalog}
use stream_pay_contracts.Trace.Replay.EntryPoints.{IsLogged}
use stream_pay_contracts.Trace.Cash.{
  moved, moved_if_positive, flow, cash, cash-append, moved_add, moved_zero, transfer-moved,
}

-- The tokens that the contract may pay in: the recorded one, and any while none is recorded.
abbrev pub IsPaidIn : Option Address → Address → Type 0
IsPaidIn none token = Unit
IsPaidIn (some recorded) token = recorded ≡ token

IsPaidIn-recorded :
    {recorded token : Address} (o : Option Address)
    → o ≡ some recorded
    → IsPaidIn o token
    → recorded ≡ token
IsPaidIn-recorded none set allowed = cc
IsPaidIn-recorded (some a) set allowed = cc

module _ {T : Type 0} (host : Host T) (t : T) (self : Address) where
  -- Since the tokens' state `t`, every holder has gained what the log says.
  pub record IsBooked (w : World T) : Type 0 where
    pub unset : w.admin ≡ none → w.token ≡ none
    pub booked :
        (token : Address)
        → IsPaidIn w.token token
        → (holder : Address)
        → host.balance w.tokens token holder
          ≡ host.balance t token holder +ℤ cash self w.events holder

-- A transfer of the recorded token.
pub recorded-moved :
    {T : Type 0} (host : Host T) (laws : MovesTokens host) (w : World T) (token from to : Address)
    (amount : ℤ) (tokens : T) {recorded : Address}
    → w.token ≡ some recorded
    → host.transfer w.tokens recorded from to amount ≡ some tokens
    → IsPaidIn w.token token
    → (holder : Address)
    → host.balance tokens token holder
      ≡ host.balance w.tokens token holder +ℤ moved from to amount holder
recorded-moved host laws w token from to amount tokens {recorded} set h allowed holder =
    rw (← IsPaidIn-recorded w.token set allowed)
      (transfer-moved host laws w.tokens tokens recorded from to amount h holder)

-- A payment that is made only for a positive amount.
pub PaysIfPositive-moved :
    {T : Type 0} (host : Host T) (laws : MovesTokens host) (o : Option Address)
    (token from to : Address) (amount : ℤ) (t t' : T)
    → PaysIfPositive host o from to amount t t'
    → IsPaidIn o token
    → (holder : Address)
    → host.balance t' token holder
      ≡ host.balance t token holder +ℤ moved_if_positive from to amount holder
unfolding moved_if_positive
PaysIfPositive-moved host laws o token from to amount t t' (skipped low same) allowed holder =
    rw (not_positive amount low, same) (sym (add_zero (host.balance t token holder)))
PaysIfPositive-moved host laws o token from to amount t t' (paid a positive set h) allowed holder =
    rw (is_positive amount positive, ← IsPaidIn-recorded o set allowed)
      (transfer-moved host laws t t' a from to amount h holder)

-- The events of a batch add up to its amounts.
pub store_all-cash :
    {T : Type 0} (host : Host T) (env : Env) (sender self : Address) (id : ℕ)
    (requests : List StreamRequest) (w : World T) (holder : Address)
    → cash self (store_all host env sender id requests w).events holder
      ≡ cash self w.events holder +ℤ moved sender self (amounts requests) holder
unfolding store_all store_one amounts flow
store_all-cash host env sender self id [] w holder =
    sym (ap (λ x. cash self w.events holder +ℤ x) (moved_zero sender self holder) ∙ add_zero _)
store_all-cash host env sender self id (r ∷ requests) w holder =
    store_all-cash host env sender self (id + 1) requests (store_one host env sender id r w) holder
    ∙ ap (λ x. x +ℤ moved sender self (amounts requests) holder)
        (cash-append self w.events _ holder)
    ∙ +ℤ_assoc _ _ _
    ∙ ap (λ x. cash self w.events holder +ℤ x)
        (moved_add sender self r.total_amount (amounts requests) holder)

module _ {T : Type 0} (host : Host T) (laws : MovesTokens host) (t : T) (env : Env) (w : World T)
    (logged : IsLogged w) (before : IsBooked host t env.current_contract w) where
  pub call-IsBooked :
      {A : Type 0} (o : Outcome T A)
      → ((a : A) (w' : World T) → o ≡ done a w' → IsBooked host t env.current_contract w')
      → IsBooked host t env.current_contract (settle w o)
  call-IsBooked o f = settle-keeps (IsBooked host t env.current_contract) w o before f

  -- A call that publishes one event, which tells what it moved.
  pub told-IsBooked :
      (w' : World T) (e : Event)
      → w'.events ≡ w.events ++ e ∷ []
      → w'.token ≡ w.token
      → (w'.admin ≡ none → w.admin ≡ none)
      → ((token : Address)
          → IsPaidIn w.token token
          → (holder : Address)
          → host.balance w'.tokens token holder
            ≡ host.balance w.tokens token holder
              +ℤ flow env.current_contract (catalog w.streams) e holder)
      → IsBooked host t env.current_contract w'
  told-IsBooked w' e told same still gain = record {
    unset = λ h. same ∙ before.unset (still h);
    booked = λ token allowed holder.
        let recorded = subst (λ o. IsPaidIn o token) same allowed in
        gain token recorded holder
        ∙ ap (λ x. x +ℤ flow env.current_contract (catalog w.streams) e holder)
            (before.booked token recorded holder)
        ∙ +ℤ_assoc _ _ _
        ∙ sym (
            ap (λ x. host.balance t token holder +ℤ x)
              (ap (λ events. cash env.current_contract events holder) told
                ∙ cash-append env.current_contract w.events e holder
                ∙ ap
                    (λ d.
                      cash env.current_contract w.events holder
                      +ℤ flow env.current_contract d e holder)
                    logged));
  }
