-- ===== src/Trace/Payout.antt =====
-- What an ended stream pays out, and the settlement of one that has not ended (src/lib.rs).
use stream_pay_contracts.Base.{
  ℕ, ◌≤◌, ◌<◌, ◌≡◌, refl, sym, ap, ◌∙◌, leb, true, false, some, arith, ◌⊎◌,
}
use stream_pay_contracts.Base.Int.{ℤ, pos, ◌+ℤ◌, ◌-ℤ◌, ◌<ℤ◌, ltb_ℤ, leb_ℤ, int_laws}
use stream_pay_contracts.Base.Dict.{lookup, lookup-insert_same}
use stream_pay_contracts.Error.{ok}
use stream_pay_contracts.Types.{Address, Stream, active, completed, cancelled, is_status_cancelled}
use stream_pay_contracts.Types.Valid.{IsWellFormed}
use stream_pay_contracts.Vesting.{vested, withdrawable}
use stream_pay_contracts.Vesting.Bounds.{withdrawable_lem, Fits, scheduled, vested-cases}
use stream_pay_contracts.Host.{Env, Host}
use stream_pay_contracts.World.{World, done}
use stream_pay_contracts.Invariant.Insert.{AllStreams-lookup}
use stream_pay_contracts.Contract.Withdraw.{withdraw, pay_out}
use stream_pay_contracts.Contract.Withdraw.Complete.{withdraw_complete}
use stream_pay_contracts.Contract.Cancel.{cancel}
use stream_pay_contracts.Contract.Cancel.Effect.{PaysIfPositive}
use stream_pay_contracts.Contract.Cancel.Complete.{cancel_complete}
use stream_pay_contracts.Trace.{Run, Typed, AnyMove, deployed, settle}
use stream_pay_contracts.Trace.Valid.{Run-IsValid}

not_started : (s : Stream) (now : ℕ) → s.start < s.end → s.end ≤ now → leb now s.start ≡ false
not_started s now window ended = ground arith

over : (s : Stream) (now : ℕ) → s.end ≤ now → leb s.end now ≡ true
over s now ended = ground arith

-- From its end on a stream has vested all of its total.
vested-ended : (s : Stream) (now : ℕ) → IsWellFormed s → s.end ≤ now → vested s now ≡ ok s.total
unfolding vested
vested-ended s now well ended = rw (not_started s now well.window ended, over s now ended) refl

rest_positive : (t w : ℤ) → w <ℤ t → pos 0 <ℤ t -ℤ w
rest_positive t w h = omega int_laws

rest_due : (t w : ℤ) → w <ℤ t → ltb_ℤ (pos 0) (t -ℤ w) ≡ true
rest_due t w h = let r = rest_positive t w h in ground arith

rest_sums : (t w : ℤ) → w +ℤ (t -ℤ w) ≡ t
rest_sums t w = omega int_laws

all_paid : (t : ℤ) → leb_ℤ t t ≡ true
all_paid t = ground arith

withdrawable-ended :
    (s : Stream) (now : ℕ)
    → IsWellFormed s
    → s.status ≡ active
    → s.end ≤ now
    → withdrawable s now ≡ ok (s.total -ℤ s.withdrawn)
withdrawable-ended s now well live ended =
    withdrawable_lem s now well (vested-ended s now well ended)
    ∙ rw (rest_due s.total s.withdrawn (well.owed live)) refl

paid_up :
    (s : Stream)
    → pay_out s (s.withdrawn +ℤ (s.total -ℤ s.withdrawn))
      ≡ record s { withdrawn = s.total; status = completed }
paid_up s = rw (rest_sums s.total s.withdrawn, all_paid s.total) refl

-- From deployment, whatever typed calls were made: once an active stream has ended, a withdrawal
-- that its recipient authorized returns all of the total that was not withdrawn yet, if the
-- recorded token makes the transfer; the stream is then completed with its total withdrawn, and the
-- tokens are as that transfer left them.
pub withdraw_rest :
    {T : Type 0} (host : Host T) (t : T) {now : ℕ} {w : World T} (env : Env) (id : ℕ) (s : Stream)
    (token : Address) {tokens : T}
    → Run host Typed AnyMove 0 (deployed t) now w
    → lookup id w.streams ≡ some s
    → s.status ≡ active
    → s.end ≤ env.timestamp
    → env.authorized s.recipient ≡ true
    → w.token ≡ some token
    → host.transfer w.tokens token env.current_contract s.recipient (s.total -ℤ s.withdrawn)
      ≡ some tokens
    → let w' = settle w (withdraw host env id s.recipient w) in
      (withdraw host env id s.recipient w ≡ done (s.total -ℤ s.withdrawn) w')
      × (lookup id w'.streams ≡ some (record s { withdrawn = s.total; status = completed }))
      × (w'.tokens ≡ tokens)
withdraw_rest host t {now} {w} env id s token {tokens} run found live ended authorized chosen
      moved =
    let valid = Run-IsValid host t run in
    let well = (AllStreams-lookup _ id s w.streams valid.sound found).well_formed in
    let rest = s.total -ℤ s.withdrawn in
    let returned =
      withdraw_complete host env id w s token well authorized found live
        (withdrawable-ended s env.timestamp well live ended)
        (rest_positive s.total s.withdrawn (well.owed live)) chosen moved in
    let kept = ap (settle w) returned in
    (
      returned ∙ ap (done rest) (sym kept),
      ap (λ v. lookup id v.streams) kept
          ∙ lookup-insert_same id (pay_out s (s.withdrawn +ℤ rest)) w.streams
          ∙ ap some (paid_up s),
      ap (λ v. v.tokens) kept,
    )

abbrev pub settled_at : Stream → ℕ → Stream
settled_at s now = record s { withdrawn = pos (scheduled s now); status = cancelled }

-- The schedule is computed where its product fits.
pub vested-Fits :
    (s : Stream) (now : ℕ) → IsWellFormed s → Fits s now → vested s now ≡ ok (pos (scheduled s now))
vested-Fits s now well fits = ground (arith, vested-cases s now well)

-- From deployment, whatever typed calls were made: while a stream is active, a cancellation that
-- the sender or the recipient calls and authorized returns, if the time is outside the window or
-- the product of the total and the elapsed seconds fits an i128, and the recorded token makes those
-- of the two payments that are positive; the stream is then cancelled, with its scheduled share as
-- the withdrawn amount, and the tokens are as the payments left them.
pub cancel_settles :
    {T : Type 0} (host : Host T) (t : T) {now : ℕ} {w : World T} (env : Env) (id : ℕ)
    (caller : Address) (s : Stream) (token : Address) {paid_tokens tokens : T}
    → Run host Typed AnyMove 0 (deployed t) now w
    → lookup id w.streams ≡ some s
    → s.status ≡ active
    → (caller ≡ s.sender) ⊎ (caller ≡ s.recipient)
    → env.authorized caller ≡ true
    → Fits s env.timestamp
    → w.token ≡ some token
    → PaysIfPositive host
        (some token)
        env.current_contract
        s.recipient
        (pos (scheduled s env.timestamp) -ℤ s.withdrawn)
        w.tokens
        paid_tokens
    → PaysIfPositive host
        (some token)
        env.current_contract
        s.sender
        (s.total -ℤ pos (scheduled s env.timestamp))
        paid_tokens
        tokens
    → let w' = settle w (cancel host env id caller w) in
      (cancel host env id caller w ≡ done tt w')
      × (lookup id w'.streams ≡ some (settled_at s env.timestamp))
      × (w'.tokens ≡ tokens)
cancel_settles host t {now} {w} env id caller s token {paid_tokens} {tokens} run found live party
      authorized fits chosen first second =
    let valid = Run-IsValid host t run in
    let well = (AllStreams-lookup _ id s w.streams valid.sound found).well_formed in
    let returned =
      cancel_complete host env id caller w s token (pos (scheduled s env.timestamp)) paid_tokens
        tokens well authorized found party (ap is_status_cancelled live)
        (vested-Fits s env.timestamp well fits) chosen first second in
    let kept = ap (settle w) returned in
    (
      returned ∙ ap (done tt) (sym kept),
      ap (λ v. lookup id v.streams) kept
          ∙ lookup-insert_same id (settled_at s env.timestamp) w.streams,
      ap (λ v. v.tokens) kept,
    )
