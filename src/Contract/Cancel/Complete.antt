-- ===== src/Contract/Cancel/Complete.antt =====
-- When a cancellation goes through (src/lib.rs).
use stream_pay_contracts.Base.{ℕ, ◌≡◌, ◌⊎◌, refl, true, false, some, [], ◌∷◌, ◌++◌, unwrap_or}
use stream_pay_contracts.Base.Int.{
  ℤ, pos, ◌-ℤ◌, ◌≤ℤ◌, checked_add, checked_sub, checked_sub-fits, int_laws, IsI128,
}
use stream_pay_contracts.Base.Dict.{lookup, insert}
use stream_pay_contracts.Error.{ok}
use stream_pay_contracts.Types.{Address, Stream, cancelled, is_status_cancelled}
use stream_pay_contracts.Types.Valid.{IsWellFormed}
use stream_pay_contracts.Vesting.{vested}
use stream_pay_contracts.Vesting.Bounds.{vested_bounds, unvested_lem}
use stream_pay_contracts.Contract.Cancel.Exact.{cancel-returns}
use stream_pay_contracts.Events.{stream_cancelled}
use stream_pay_contracts.Host.{Env, Host}
use stream_pay_contracts.World.{World, done}
use stream_pay_contracts.Storage.{bump_stream_live}
use stream_pay_contracts.Contract.Cancel.{cancel}
use stream_pay_contracts.Contract.Cancel.Effect.{PaysIfPositive}

pub difference_fits :
    (s : Stream) (v : ℤ)
    → IsWellFormed s
    → (pos 0 ≤ℤ v) × (v ≤ℤ s.total)
    → IsI128 (v -ℤ s.withdrawn)
difference_fits s v h b = omega (int_laws, h.total_fits, h.withdrawn_nonneg, h.withdrawn_le_total)

module _ {T : Type 0} (host : Host T) (env : Env) where
  -- A cancellation of a well-formed stream that is not cancelled, authorized by the sender or the
  -- recipient who calls it, returns where the vested amount is computed and the recorded token
  -- makes the two payments that are positive; the world it leaves is the old one with the stream
  -- settled at what has vested, its lifetime extended, the tokens moved, the supply lowered and one
  -- event published.
  pub cancel_complete :
      (id : ℕ) (caller : Address) (w : World T) (s : Stream) (token : Address) (v : ℤ) (t t' : T)
      → IsWellFormed s
      → env.authorized caller ≡ true
      → lookup id w.streams ≡ some s
      → (caller ≡ s.sender) ⊎ (caller ≡ s.recipient)
      → is_status_cancelled s.status ≡ false
      → vested s env.timestamp ≡ ok v
      → w.token ≡ some token
      → PaysIfPositive host
          (some token)
          env.current_contract
          s.recipient
          (v -ℤ s.withdrawn)
          w.tokens
          t
      → PaysIfPositive host (some token) env.current_contract s.sender (s.total -ℤ v) t t'
      → cancel host env id caller w
        ≡ done tt (record w {
          streams = insert id (record s { withdrawn = v; status = cancelled }) w.streams;
          stream_live = bump_stream_live host env id w.stream_live;
          tokens = t';
          total_supply = some (
              unwrap_or
                (checked_sub
                  (unwrap_or w.total_supply (pos 0))
                  (unwrap_or (checked_add (v -ℤ s.withdrawn) (s.total -ℤ v)) (s.total -ℤ v)))
                (pos 0));
          events = w.events ++ stream_cancelled id caller (s.total -ℤ v) (v -ℤ s.withdrawn) ∷ [];
        })
  cancel_complete id caller w s token v t t' well authorized found party live vests chosen first
        second =
      cancel-returns host env id caller w (record {
        stream = s;
        now_vested = v;
        recipient_paid = v -ℤ s.withdrawn;
        sender_refund = s.total -ℤ v;
        token = token;
        tokens = t;
        tokens' = t';
        authorized = authorized;
        found = found;
        party = party;
        not_cancelled = live;
        vests = vests;
        pays =
            checked_sub-fits v s.withdrawn
              (difference_fits s v well (vested_bounds s env.timestamp well vests));
        refunds = unvested_lem s env.timestamp well vests;
        token_set = chosen;
        to_recipient = rw chosen first;
        to_sender = rw chosen second;
        left = refl;
      })
