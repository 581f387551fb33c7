-- ===== src/Contract/Batch/Equivalent.antt =====
-- A batch against one creation for each request (src/lib.rs).
use stream_pay_contracts.Base.{
  some-injective, ℕ, ◌≡◌, sym, ap, ◌∙◌, subst, true, Option, none, some, List, unwrap_or,
}
use stream_pay_contracts.Base.Int.{pos, ◌+ℤ◌, checked_add_u64-some}
use stream_pay_contracts.Types.{Address, StreamRequest}
use stream_pay_contracts.Host.{Env, Host, MovesTokens}
use stream_pay_contracts.World.{World, done}
use stream_pay_contracts.Storage.{is_some, bump_threshold, bump_extend}
use stream_pay_contracts.Contract.Batch.{create_stream_batch}
use stream_pay_contracts.Contract.Batch.Effect.{
  amounts, store_all, create_stream_batch-done, IsBatch, finish,
}
use stream_pay_contracts.Contract.Batch.Sequence.{
  AllDated, create_each, store_all-apart, create_each-done,
}

is_count : (o : Option ℕ) (n : ℕ) → is_some o ≡ true → unwrap_or o 0 ≡ n → o ≡ some n
is_count none n set h = cc
is_count (some a) n set h = ap some h

module _ {T : Type 0} (host : Host T) (env : Env) (sender : Address) where
  -- A batch leaves the streams stored, its transfer made, and the counter and the instance's life
  -- written.
  batch_leaves :
      (requests : List StreamRequest) (w : World T) {v : World T} {ids : List ℕ}
      → (b : IsBatch host env sender requests w ids v)
      → v ≡ record (store_all host env sender (unwrap_or w.counter 0) requests w) {
        counter = some b.next;
        total_supply = w.total_supply;
        tokens = b.tokens;
        instance_live = host.extend_ttl env.sequence w.instance_live bump_threshold bump_extend;
      }
  batch_leaves requests w b =
      b.left
      ∙ ap (finish host env sender b.next) (
          store_all-apart host env sender (unwrap_or w.counter 0) requests w w.counter
            w.total_supply b.tokens w.instance_live)

  -- The first world with the supply, the tokens and the instance's life of the second.
  abbrev pub paid_as : World T → World T → World T
  paid_as v w = record v {
    total_supply = w.total_supply;
    tokens = w.tokens;
    instance_live = w.instance_live;
  }

  -- With a token that moves what it is asked to, a batch whose requests name their starts, and one
  -- creation for each request in its order, both where they return, return the same ids and leave
  -- the same state, but for the reported supply, which the batch leaves short by the sum of the
  -- amounts, the tokens' state, which shows every holder the same balance, and the life of the
  -- instance.
  pub batch_as_creations :
      (requests : List StreamRequest) (w : World T) (token : Address) {v w' : World T}
      {ids ids' : List ℕ}
      → MovesTokens host
      → w.token ≡ some token
      → AllDated requests
      → create_stream_batch host env sender requests w ≡ done ids v
      → create_each host env sender requests w ≡ done ids' w'
      → (ids' ≡ ids)
        × (w' ≡ paid_as v w')
        × (unwrap_or w'.total_supply (pos 0) ≡ unwrap_or v.total_supply (pos 0) +ℤ amounts requests)
        × ((holder : Address)
            → host.balance w'.tokens token holder ≡ host.balance v.tokens token holder)
  batch_as_creations requests w token {v} {w'} laws chosen all together singly =
      let b = create_stream_batch-done host env sender together in
      let s = create_each-done host env sender requests all singly in
      let left = batch_leaves requests w b in
      let stored = store_all host env sender (unwrap_or w.counter 0) requests w in
      let moved =
        subst (λ x. host.transfer w.tokens token sender env.current_contract x ≡ some b.tokens)
          b.summed
          (subst (λ x. host.transfer w.tokens x sender env.current_contract b.sum ≡ some b.tokens)
            (some-injective (sym b.token_set ∙ chosen)) b.transferred) in
      (
        s.numbered ∙ sym b.numbered,
        s.left
            ∙ ap
                (λ n. record stored {
                  counter = n;
                  total_supply = w'.total_supply;
                  tokens = w'.tokens;
                  instance_live = w'.instance_live;
                })
                (is_count w'.counter b.next (s.opened b.not_empty)
                  (s.counted ∙ sym (checked_add_u64-some _ _ _ b.counted).0))
            ∙ sym (ap (λ x. paid_as x w') left),
        s.supplied ∙ ap (λ x. unwrap_or x.total_supply (pos 0) +ℤ amounts requests) (sym left),
        λ holder.
            s.balances laws token chosen holder
            ∙ sym (
                ap (λ x. host.balance x.tokens token holder) left
                ∙ laws.moves w.tokens b.tokens token sender env.current_contract (amounts requests)
                    moved holder),
      )
