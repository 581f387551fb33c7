-- ===== src/Contract/Withdraw/Exact.antt =====
-- When a withdrawal returns (src/lib.rs).
use stream_pay_contracts.Base.{ℕ, ◌≡◌, refl}
use stream_pay_contracts.Base.Int.{ℤ}
use stream_pay_contracts.Types.{Address}
use stream_pay_contracts.Host.{Env, Host}
use stream_pay_contracts.World.{World, done}
use stream_pay_contracts.Contract.Calls.Completion.{met_eq, met_open, met_positive}
use stream_pay_contracts.Contract.Withdraw.{withdraw}
use stream_pay_contracts.Contract.Withdraw.Effect.{IsWithdrawal}

module _ {T : Type 0} (host : Host T) (env : Env) (id : ℕ) (recipient : Address) (w : World T) where
  pub withdraw-returns :
      {a : ℤ} {w' : World T}
      → IsWithdrawal host env id recipient w a w'
      → withdraw host env id recipient w ≡ done a w'
  unfolding withdraw
  withdraw-returns e =
      let (uncancelled, uncompleted) = met_open _ e.still_active in
      rw
        (
          e.left,
          e.authorized,
          e.found,
          met_eq _ _ e.owned,
          uncancelled,
          uncompleted,
          e.due,
          met_positive _ e.positive,
          e.summed,
          e.token_set,
          e.transferred,
        )
        refl
