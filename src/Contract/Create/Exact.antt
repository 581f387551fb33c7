-- ===== src/Contract/Create/Exact.antt =====
-- When a creation returns (src/lib.rs).
use stream_pay_contracts.Base.{ℕ, ◌≡◌, refl}
use stream_pay_contracts.Base.Int.{ℤ, ltb_ℤ_no, leb_no}
use stream_pay_contracts.Types.{Address}
use stream_pay_contracts.Constants.{valid_least}
use stream_pay_contracts.Host.{Env, Host}
use stream_pay_contracts.World.{World, done}
use stream_pay_contracts.Contract.Create.{create_stream}
use stream_pay_contracts.Contract.Create.Effect.{IsCreation}

module _ {T : Type 0} (host : Host T) (env : Env) (sender recipient : Address) (amount : ℤ)
    (raw_start end_time : ℕ) (w : World T) where
  pub create_stream-returns :
      {id : ℕ} {w' : World T}
      → IsCreation host env sender recipient amount raw_start end_time w id w'
      → create_stream host env sender recipient amount raw_start end_time w ≡ done id w'
  unfolding create_stream
  create_stream-returns e =
      rw
        (
          e.left,
          e.initialized,
          e.authorized,
          e.valid,
          (valid_least amount e.valid).0,
          leb_no _ _ e.window,
          leb_no _ _ e.future,
          e.supplied,
          ltb_ℤ_no _ _ e.capped,
          e.token_set,
          e.transferred,
          e.counted,
          e.numbered,
        )
        refl
