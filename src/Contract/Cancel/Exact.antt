-- ===== src/Contract/Cancel/Exact.antt =====
-- When a cancellation returns (src/lib.rs).
use stream_pay_contracts.Base.Int.{not_positive, is_positive, ℤ, pos, checked_add, checked_sub}
use stream_pay_contracts.Base.{ℕ, ⊤, ◌≡◌, refl, ◌∙◌, some, unwrap_or, sym, ap}
use stream_pay_contracts.Base.Dict.{insert}
use stream_pay_contracts.Types.{Address, cancelled}
use stream_pay_contracts.Events.{stream_cancelled}
use stream_pay_contracts.Host.{Env, Host}
use stream_pay_contracts.World.{World, done, Action, ◌>>◌, ◌>>=◌}
use stream_pay_contracts.World.Inversion.{bind_runs}
use stream_pay_contracts.Storage.{
  bump_stream_live, read_total_supply, write_total_supply, read_token,
}
use stream_pay_contracts.Contract.Calls.{publish}
use stream_pay_contracts.Contract.Calls.Completion.{met_either}
use stream_pay_contracts.Contract.Cancel.{cancel, transfer_if_positive}
use stream_pay_contracts.Contract.Cancel.Effect.{PaysIfPositive, skipped, paid, IsCancellation}

transfer_if_positive_runs :
    {T : Type 0} (host : Host T) (w : World T) (token from to : Address) (amount : ℤ) (t : T)
    → w.token ≡ some token
    → PaysIfPositive host w.token from to amount w.tokens t
    → transfer_if_positive host from to amount w ≡ done tt (record w { tokens = t })
unfolding transfer_if_positive
transfer_if_positive_runs host w token from to amount t chosen (skipped low same) =
    rw (not_positive amount low, same) refl
transfer_if_positive_runs host w token from to amount t chosen (paid address high set moved) =
    rw (is_positive amount high, set, moved) refl

read_token_runs :
    {T : Type 0} (w : World T) (token : Address)
    → w.token ≡ some token
    → read_token w ≡ done token w
read_token_runs w token chosen = rw chosen refl

-- The writes after the two payments.
abbrev close : {T : Type 0} → ℕ → Address → ℤ → ℤ → Action T ⊤
close id caller sender_refund recipient_paid = do
  supply ← read_total_supply
  write_total_supply (
      unwrap_or
        (checked_sub supply (unwrap_or (checked_add recipient_paid sender_refund) sender_refund))
        (pos 0))
  publish (stream_cancelled id caller sender_refund recipient_paid)

module _ {T : Type 0} (host : Host T) (env : Env) (id : ℕ) (caller : Address) (w : World T) where
  pub cancel-returns :
      {w' : World T}
      → IsCancellation host env id caller w w'
      → cancel host env id caller w ≡ done tt w'
  unfolding cancel
  cancel-returns {w'} e =
      let s = e.stream in
      let self = env.current_contract in
      let pay_recipient = transfer_if_positive host self s.recipient e.recipient_paid in
      let pay_sender = transfer_if_positive host self s.sender e.sender_refund in
      let stored : World T = record w {
        streams = insert id (record s { withdrawn = e.now_vested; status = cancelled }) w.streams;
        stream_live = bump_stream_live host env id w.stream_live;
      } in
      let closing = close id caller e.sender_refund e.recipient_paid in
      rw
        (
          e.authorized,
          e.found,
          met_either _ _ _ e.party,
          e.not_cancelled,
          e.vests,
          e.pays,
          e.refunds,
        )
        (bind_runs stored read_token (λ _. pay_recipient >> (pay_sender >> closing))
            (read_token_runs stored e.token e.token_set)
          ∙ bind_runs stored pay_recipient (λ _. pay_sender >> closing)
              (transfer_if_positive_runs host stored e.token self s.recipient e.recipient_paid
                e.tokens e.token_set e.to_recipient)
          ∙ bind_runs (record stored { tokens = e.tokens }) pay_sender (λ _. closing)
              (transfer_if_positive_runs host (record stored { tokens = e.tokens }) e.token self
                s.sender e.sender_refund e.tokens' e.token_set e.to_sender)
          ∙ sym (ap (done tt) e.left))
