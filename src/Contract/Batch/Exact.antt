-- ===== src/Contract/Batch/Exact.antt =====
-- When a batch returns (src/lib.rs).
use stream_pay_contracts.Base.{ℕ, ◌≤◌, ◌≡◌, sym, ap, ap₂, ◌∙◌, subst, List, unwrap_or, length}
use stream_pay_contracts.Base.Int.{◌≤ℤ◌, i128_max, u64_max, checked_add_u64-some}
use stream_pay_contracts.Types.{Address, StreamRequest}
use stream_pay_contracts.Host.{Env, Host}
use stream_pay_contracts.World.{World, done}
use stream_pay_contracts.Contract.Batch.{create_stream_batch}
use stream_pay_contracts.Contract.Batch.Effect.{IsBatch, finish, store_all}
use stream_pay_contracts.Contract.Batch.Complete.{create_stream_batch_complete}

module _ {T : Type 0} (host : Host T) (env : Env) (sender : Address) (requests : List StreamRequest)
    (w : World T) where
  pub create_stream_batch-returns :
      {ids : List ℕ} {w' : World T}
      → IsBatch host env sender requests w ids w'
      → create_stream_batch host env sender requests w ≡ done ids w'
  create_stream_batch-returns e =
      let first = unwrap_or w.counter 0 in
      let paid = record w { tokens = e.tokens } in
      let (next_eq, next_fits) = checked_add_u64-some first (length requests) e.next e.counted in
      create_stream_batch_complete host env sender requests w e.token e.tokens e.initialized
        e.authorized e.not_empty e.accepted (subst (λ x. x ≤ℤ i128_max) e.summed e.sum_fits)
        (subst (λ x. x ≤ u64_max) next_eq next_fits) e.token_set
        (ap (λ x. host.transfer w.tokens e.token sender env.current_contract x) (sym e.summed)
          ∙ e.transferred)
      ∙ ap₂ done (sym e.numbered) (
          ap (λ n. finish host env sender n (store_all host env sender first requests paid))
            (sym next_eq)
          ∙ sym e.left)
