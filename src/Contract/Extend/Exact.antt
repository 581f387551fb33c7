-- ===== src/Contract/Extend/Exact.antt =====
-- When an extension returns (src/lib.rs).
use stream_pay_contracts.Base.{ℕ, ◌≡◌, refl}
use stream_pay_contracts.Base.Int.{leb_no}
use stream_pay_contracts.Types.{Address}
use stream_pay_contracts.Host.{Env, Host}
use stream_pay_contracts.World.{World, done}
use stream_pay_contracts.Contract.Calls.Completion.{met_eq, met_active}
use stream_pay_contracts.Contract.Extend.{extend_stream}
use stream_pay_contracts.Contract.Extend.Effect.{IsExtension}

module _ {T : Type 0} (host : Host T) (env : Env) (id : ℕ) (sender : Address) (new_end : ℕ)
    (w : World T) where
  pub extend_stream-returns :
      {w' : World T}
      → IsExtension host env id sender new_end w w'
      → extend_stream host env id sender new_end w ≡ done tt w'
  unfolding extend_stream
  extend_stream-returns e =
      rw
        (
          e.left,
          e.authorized,
          e.found,
          met_eq _ _ e.owned,
          met_active _ e.still_active,
          leb_no _ _ e.later,
        )
        refl
