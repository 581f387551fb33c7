-- ===== src/Trace/Causes/EntryPoints.antt =====
-- Why the entry points of streams fail (src/lib.rs).
use stream_pay_contracts.Base.{
  ℕ, ◌≡◌, sym, ap, ◌∙◌, subst, some, none_ne_some, not, leb, ◌==◌, ◌&&◌, inl, inr, arith,
}
use stream_pay_contracts.Base.Int.{
  ℤ, pos, ◌≤ℤ◌, ltb_ℤ, leb_ℤ, checked_add, checked_sub, checked_add-some, checked_add-fits,
  checked_sub-fits, eq_of_parts,
}
use stream_pay_contracts.Base.Dict.{lookup}
use stream_pay_contracts.Constants.{is_valid_amount}
use stream_pay_contracts.Error.{Error, ok}
use stream_pay_contracts.Types.{
  Address, Stream, is_status_active, is_status_cancelled, is_status_completed,
}
use stream_pay_contracts.Types.Valid.{IsWellFormed}
use stream_pay_contracts.Vesting.{vested, unvested, withdrawable}
use stream_pay_contracts.Vesting.Bounds.{withdrawable_bounds}
use stream_pay_contracts.Vesting.Failure.{vested-err, unvested-err, withdrawable-err, rest_fits}
use stream_pay_contracts.Host.{Env, Host}
use stream_pay_contracts.World.{World, fail}
use stream_pay_contracts.World.Failure.{blame_raise_if, blame_or_raise, blame_try, blame_unwrap}
use stream_pay_contracts.Contract.Calls.Failure.{
  past_auth, past_transfer, failed_eq, failed_either, failed_active, failed_uncancelled,
  failed_uncompleted, failed_valid, failed_after, failed_below, failed_positive, failed_sum,
}
use stream_pay_contracts.Contract.TopUp
use stream_pay_contracts.Contract.Extend
use stream_pay_contracts.Contract.Withdraw
use stream_pay_contracts.Contract.Withdraw.Complete.{sum_fits}
use stream_pay_contracts.Contract.Cancel
use stream_pay_contracts.Invariant.{IsValid, supply}
use stream_pay_contracts.Invariant.Preserved.{found-IsSound}
use stream_pay_contracts.Trace.{top_up, extend_stream, withdraw, cancel}
use stream_pay_contracts.Trace.Errors.EntryPoints.{past_transfer_if_positive}
use stream_pay_contracts.Trace.Ranges.{cap}
use stream_pay_contracts.Trace.Causes.{exceeds, IsCause}

nothing :
    (s : Stream) (now : ℕ) (a : ℤ)
    → IsWellFormed s
    → withdrawable s now ≡ ok a
    → a ≤ℤ pos 0
    → withdrawable s now ≡ ok (pos 0)
nothing s now a h due high =
    let (low, _) = withdrawable_bounds s now h due in
    due ∙ ap ok (eq_of_parts a (pos 0) (omega (arith, low, high)))

module _ {T : Type 0} (now : ℕ) (w : World T) (valid : IsValid now w) where
  found-IsWellFormed : (id : ℕ) {s : Stream} → lookup id w.streams ≡ some s → IsWellFormed s
  found-IsWellFormed id found = (found-IsSound now w valid id found).well_formed

module _ {T : Type 0} (host : Host T) (env : Env) (now : ℕ) (w : World T) (valid : IsValid now w)
    {w' : World T} {x : Error} where
  pub extend_stream-IsCause :
      (id : ℕ) (sender : Address) (new_end : ℕ)
      → Extend.extend_stream host env id sender new_end w ≡ fail x w'
      → IsCause env w (extend_stream id sender new_end) x
  unfolding Extend.extend_stream
  extend_stream-IsCause id sender new_end h =
      let P = IsCause env w (extend_stream id sender new_end) in
      past_auth env sender _ h λ h₁.
        blame_or_raise P (lookup id w.streams) _ _ h₁ (λ missing. missing)
          λ s found h₂.
            blame_raise_if P (not (sender == s.sender)) _ _ h₂
              (λ other. (s, found, failed_eq sender s.sender other))
              λ _ h₃.
                blame_raise_if P (not (is_status_active s.status)) _ _ h₃
                  (λ closed. (s, found, failed_active s.status closed))
                  λ _ h₄.
                    blame_raise_if P (leb new_end s.end) _ _ h₄
                      (λ early. (s, found, failed_after new_end s.end early)) λ _ h₅. cc

  pub top_up-IsCause :
      (id : ℕ) (sender : Address) (amount : ℤ)
      → TopUp.top_up host env id sender amount w ≡ fail x w'
      → IsCause env w (top_up id sender amount) x
  unfolding TopUp.top_up
  top_up-IsCause id sender amount h =
      let P = IsCause env w (top_up id sender amount) in
      past_auth env sender _ h λ h₁.
        blame_raise_if P (not (is_valid_amount amount)) _ _ h₁ (failed_valid amount) λ _ h₂.
          blame_or_raise P (lookup id w.streams) _ _ h₂ (λ missing. missing)
            λ s found h₃.
              blame_raise_if P (not (sender == s.sender)) _ _ h₃
                (λ other. (s, found, failed_eq sender s.sender other))
                λ _ h₄.
                  blame_raise_if P (not (is_status_active s.status)) _ _ h₄
                    (λ closed. (s, found, failed_active s.status closed))
                    λ _ h₅.
                      blame_or_raise P (checked_add s.total amount) _ _ h₅
                        (λ over. inl (s, found, failed_sum s.total amount over))
                        λ total _ h₆.
                          blame_or_raise P (checked_add (supply w) amount) _ _ h₆
                            (λ over. inr (failed_sum (supply w) amount over))
                            λ new_supply summed h₇.
                              blame_raise_if P (ltb_ℤ (cap w) new_supply) _ _ h₇
                                (λ over.
                                  exceeds (cap w) (supply w) amount new_supply
                                    (checked_add-some _ _ _ summed).0
                                    (failed_below (cap w) new_supply over))
                                λ _ h₈.
                                  past_transfer _ host sender env.current_contract amount _ h₈
                                    λ t h₉. cc

  pub withdraw-IsCause :
      (id : ℕ) (recipient : Address)
      → Withdraw.withdraw host env id recipient w ≡ fail x w'
      → IsCause env w (withdraw id recipient) x
  unfolding Withdraw.withdraw
  withdraw-IsCause id recipient h =
      let P = IsCause env w (withdraw id recipient) in
      past_auth env recipient _ h λ h₁.
        blame_or_raise P (lookup id w.streams) _ _ h₁ (λ missing. missing)
          λ s found h₂.
            let well = found-IsWellFormed now w valid id found in
            blame_raise_if P (not (s.recipient == recipient)) _ _ h₂
              (λ other. (s, found, λ same. failed_eq s.recipient recipient other (sym same)))
              λ _ h₃.
                blame_raise_if P (is_status_cancelled s.status) _ _ h₃
                  (λ closed. (s, found, failed_uncancelled s.status closed))
                  λ _ h₄.
                    blame_raise_if P (is_status_completed s.status) _ _ h₄
                      (λ closed. (s, found, failed_uncompleted s.status closed))
                      λ _ h₅.
                        blame_try P (withdrawable s env.timestamp) _ h₅
                          (λ e failed.
                            let (same, over) = withdrawable-err s env.timestamp well failed in
                            subst P (sym same) (s, found, over))
                          λ a due h₆.
                            blame_raise_if P (leb_ℤ a (pos 0)) _ _ h₆
                              (λ high. (
                                s,
                                found,
                                nothing s env.timestamp a well due (failed_positive a high),
                              ))
                              λ _ h₇.
                                blame_or_raise P (checked_add s.withdrawn a) _ _ h₇
                                  (λ over. none_ne_some over (
                                    checked_add-fits s.withdrawn a (
                                      sum_fits s a well
                                        (withdrawable_bounds s env.timestamp well due))))
                                  λ withdrawn _ h₈.
                                    past_transfer _ host env.current_contract recipient a _ h₈
                                      λ t h₉. cc

  pub cancel-IsCause :
      (id : ℕ) (caller : Address)
      → Cancel.cancel host env id caller w ≡ fail x w'
      → IsCause env w (cancel id caller) x
  unfolding Cancel.cancel
  cancel-IsCause id caller h =
      let P = IsCause env w (cancel id caller) in
      past_auth env caller _ h λ h₁.
        blame_or_raise P (lookup id w.streams) _ _ h₁ (λ missing. missing)
          λ s found h₂.
            let well = found-IsWellFormed now w valid id found in
            blame_raise_if P (not (caller == s.sender) && not (caller == s.recipient)) _ _ h₂
              (λ other. (s, found, failed_either caller s.sender s.recipient other))
              λ _ h₃.
                blame_raise_if P (is_status_cancelled s.status) _ _ h₃
                  (λ closed. (s, found, failed_uncancelled s.status closed))
                  λ _ h₄.
                    blame_try P (vested s env.timestamp) _ h₄
                      (λ e failed.
                        let (same, over) = vested-err s env.timestamp well failed in
                        subst P (sym same) (s, found, over))
                      λ v vests h₅.
                        blame_or_raise P (checked_sub v s.withdrawn) _ _ h₅
                          (λ over.
                            none_ne_some over (
                              checked_sub-fits v s.withdrawn
                                (rest_fits s env.timestamp well vests)))
                          λ recipient_paid _ h₆.
                            blame_try P (unvested s env.timestamp) _ h₆
                              (λ e failed.
                                let (same, over) = unvested-err s env.timestamp well failed in
                                subst P (sym same) (s, found, over))
                              λ refund _ h₇. blame_unwrap P w.token _ h₇ λ token _ h₈.
                                past_transfer_if_positive _ host env.current_contract s.recipient
                                  recipient_paid _ h₈
                                  λ t h₉.
                                    past_transfer_if_positive _ host env.current_contract s.sender
                                      refund _ h₉ λ t' h₁₀. cc
