-- ===== src/Contract/TopUp/Exact.antt =====
-- When a top-up returns (src/lib.rs).
use stream_pay_contracts.Base.{ℕ, ◌≡◌, refl}
use stream_pay_contracts.Base.Int.{ℤ, ltb_ℤ_no}
use stream_pay_contracts.Types.{Address}
use stream_pay_contracts.Host.{Env, Host}
use stream_pay_contracts.World.{World, done}
use stream_pay_contracts.Contract.Calls.Completion.{met_eq, met_active}
use stream_pay_contracts.Contract.TopUp.{top_up}
use stream_pay_contracts.Contract.TopUp.Effect.{IsTopUp}

module _ {T : Type 0} (host : Host T) (env : Env) (id : ℕ) (sender : Address) (amount : ℤ)
    (w : World T) where
  pub top_up-returns :
      {total : ℤ} {w' : World T}
      → IsTopUp host env id sender amount w total w'
      → top_up host env id sender amount w ≡ done total w'
  unfolding top_up
  top_up-returns e =
      rw
        (
          e.left,
          e.authorized,
          e.valid,
          e.found,
          met_eq _ _ e.owned,
          met_active _ e.still_active,
          e.summed,
          e.supplied,
          ltb_ℤ_no _ _ e.capped,
          e.token_set,
          e.transferred,
        )
        refl
