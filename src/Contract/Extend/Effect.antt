-- ===== src/Contract/Extend/Effect.antt =====
-- What an extension that returns has checked and written.
use stream_pay_contracts.Host.{Env, Host}
use stream_pay_contracts.World.{World, done}
use stream_pay_contracts.World.Inversion.{after_raise_if, after_or_raise, done-result}
use stream_pay_contracts.Storage.{bump_stream_live, bump_threshold, bump_extend}
use stream_pay_contracts.Contract.Calls.Inversion.{after_auth, passed_eq, passed_active, passed_le}
use stream_pay_contracts.Base.{ℕ, ⊤, ◌<◌, ◌≡◌, not, leb, ◌==◌, true, some, [], ◌∷◌, ◌++◌}
use stream_pay_contracts.Base.Dict.{lookup, insert}
use stream_pay_contracts.Types.{Address, Stream, active, is_status_active}
use stream_pay_contracts.Events.{stream_extended}
use stream_pay_contracts.Contract.Extend.{extend_stream}

module _ {T : Type 0} (host : Host T) (env : Env) (id : ℕ) (sender : Address) (new_end : ℕ)
    (w : World T) where
  pub record IsExtension (w' : World T) : Type 0 where
    pub stream : Stream
    pub authorized : env.authorized sender ≡ true
    pub found : lookup id w.streams ≡ some stream
    pub owned : sender ≡ stream.sender
    pub still_active : stream.status ≡ active
    pub later : stream.end < new_end
    pub left : w' ≡ record w {
      streams = insert id (record stream { end = new_end }) w.streams;
      stream_live = bump_stream_live host env id w.stream_live;
      instance_live = host.extend_ttl env.sequence w.instance_live bump_threshold bump_extend;
      events = w.events ++ stream_extended id sender stream.end new_end ∷ [];
    }

  pub extend_stream-done :
      {a : ⊤} {w' : World T}
      → extend_stream host env id sender new_end w ≡ done a w'
      → IsExtension w'
  unfolding extend_stream
  extend_stream-done {a} {w'} h = after_auth env sender _ h λ authorized h₁.
      after_or_raise (lookup id w.streams) _ _ h₁ λ stream found h₂.
        after_raise_if (not (sender == stream.sender)) _ _ h₂ λ owned h₃.
          after_raise_if (not (is_status_active stream.status)) _ _ h₃ λ still_active h₄.
            after_raise_if (leb new_end stream.end) _ _ h₄ λ later h₅. record {
              stream = stream;
              authorized = authorized;
              found = found;
              owned = passed_eq _ _ owned;
              still_active = passed_active _ still_active;
              later = passed_le _ _ later;
              left = (done-result h₅).1;
            }
