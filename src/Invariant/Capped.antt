-- ===== src/Invariant/Capped.antt =====
-- The supply cap under the entry points that test it (src/lib.rs).
use stream_pay_contracts.Base.{ℕ, ◌≡◌, unwrap_or}
use stream_pay_contracts.Base.Int.{ℤ, ◌≤ℤ◌, i128_max}
use stream_pay_contracts.Types.{Address}
use stream_pay_contracts.Host.{Env, Host}
use stream_pay_contracts.World.{World, done}
use stream_pay_contracts.Contract.Create.{create_stream}
use stream_pay_contracts.Contract.Create.Effect.{create_stream-done}
use stream_pay_contracts.Contract.TopUp.{top_up}
use stream_pay_contracts.Contract.TopUp.Effect.{top_up-done}
use stream_pay_contracts.Invariant.{supply}

module _ {T : Type 0} (host : Host T) (env : Env) (w : World T) where
  -- A creation that returns leaves a reported supply within the cap.
  pub create_stream_capped :
      (sender recipient : Address) (amount : ℤ) (raw_start end_time : ℕ) {id : ℕ} {w' : World T}
      → create_stream host env sender recipient amount raw_start end_time w ≡ done id w'
      → supply w' ≤ℤ unwrap_or w'.supply_cap i128_max
  create_stream_capped sender recipient amount raw_start end_time h =
      let e = create_stream-done host env sender recipient amount raw_start end_time w h in
      rw e.left e.capped

  -- A top-up that returns leaves a reported supply within the cap.
  pub top_up_capped :
      (id : ℕ) (sender : Address) (amount : ℤ) {a : ℤ} {w' : World T}
      → top_up host env id sender amount w ≡ done a w'
      → supply w' ≤ℤ unwrap_or w'.supply_cap i128_max
  top_up_capped id sender amount h =
      let e = top_up-done host env id sender amount w h in rw e.left e.capped
