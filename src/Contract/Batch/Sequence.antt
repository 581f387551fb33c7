-- ===== src/Contract/Batch/Sequence.antt =====
-- The creations that a batch stands for, one call each (src/lib.rs).
use stream_pay_contracts.Base.{
  some-injective, ℕ, suc, ◌+◌, ◌≡◌, ◌≢◌, refl, sym, ap, ◌∙◌, subst, true, false, Option, some, List,
  [], ◌∷◌, arith, unwrap_or, length, ◌==◌, ◌++◌,
}
use stream_pay_contracts.Base.Int.{
  ℤ, pos, ◌+ℤ◌, checked_add-some, checked_add_u64-some, +ℤ_assoc, add_zero,
}
use stream_pay_contracts.Types.{Address, StreamRequest}
use stream_pay_contracts.Normalize.{start_now, normalize_start_time}
use stream_pay_contracts.Host.{Env, Host, MovesTokens}
use stream_pay_contracts.World.{World, done, Action, pure, ◌>>=◌}
use stream_pay_contracts.World.Inversion.{after_any, done-result}
use stream_pay_contracts.Contract.Create.{create_stream, new_stream}
use stream_pay_contracts.Base.Dict.{insert}
use stream_pay_contracts.Events.{stream_created}
use stream_pay_contracts.Storage.{is_some, bump_stream_live, bump_threshold, bump_extend}
use stream_pay_contracts.Contract.Create.Effect.{IsCreation, create_stream-done}
use stream_pay_contracts.Contract.Batch.Payments.{paid_in, paid_by, paid_none}
use stream_pay_contracts.Contract.Batch.{is_empty}
use stream_pay_contracts.Contract.Batch.Effect.{amounts, ids_from, store_one, store_all}

-- Every request names its start itself.
abbrev pub AllDated : List StreamRequest → Type 0
AllDated [] = Unit
AllDated (r ∷ requests) = (r.start_time ≢ start_now) × AllDated requests

dated : (now start : ℕ) → start ≢ start_now → normalize_start_time now start ≡ start
unfolding normalize_start_time
dated now start h = ground arith

none_more : (n : ℕ) → n + 0 ≡ n
none_more n = omega arith

one_more : (n c l : ℕ) → n ≡ c + 1 → n + l ≡ c + suc l
one_more n c l h = omega (arith, h)

module _ {T : Type 0} (host : Host T) (env : Env) (sender : Address) where
  -- One creation after the other, with the ids that they return.
  unfoldable pub create_each : List StreamRequest → Action T (List ℕ)
  create_each [] = pure []
  create_each (r ∷ requests) = do
    id ← create_stream host env sender r.recipient r.total_amount r.start_time r.end_time
    ids ← create_each requests
    pure (id ∷ ids)

  -- The first world with the counter, the supply, the tokens and the instance's life of the second.
  abbrev pub closed_as : World T → World T → World T
  closed_as w v = record w {
    counter = v.counter;
    total_supply = v.total_supply;
    tokens = v.tokens;
    instance_live = v.instance_live;
  }

  -- Storing neither reads nor writes the counter, the supply, the tokens or the instance's life.
  pub store_all-apart :
      (id : ℕ) (requests : List StreamRequest) (w : World T) (counter : Option ℕ)
      (supply : Option ℤ) (tokens : T) (live : ℕ)
      → store_all host env sender id requests (record w {
        counter = counter;
        total_supply = supply;
        tokens = tokens;
        instance_live = live;
      })
        ≡ record (store_all host env sender id requests w) {
          counter = counter;
          total_supply = supply;
          tokens = tokens;
          instance_live = live;
        }
  unfolding store_all store_one
  store_all-apart id [] w counter supply tokens live = refl
  store_all-apart id (r ∷ requests) w counter supply tokens live =
      store_all-apart (id + 1) requests (store_one host env sender id r w) counter supply tokens
        live

  -- What creations that return, one after the other, leave.
  pub record IsSequence (requests : List StreamRequest) (w : World T) (ids : List ℕ) (w' : World T)
      : Type 0 where
    pub numbered : ids ≡ ids_from (unwrap_or w.counter 0) requests
    pub counted : unwrap_or w'.counter 0 ≡ unwrap_or w.counter 0 + length requests
    pub counter_set : is_some w.counter ≡ true → is_some w'.counter ≡ true
    pub opened : is_empty requests ≡ false → is_some w'.counter ≡ true
    pub supplied :
        unwrap_or w'.total_supply (pos 0) ≡ unwrap_or w.total_supply (pos 0) +ℤ amounts requests
    pub left : w' ≡ closed_as (store_all host env sender (unwrap_or w.counter 0) requests w) w'
    pub balances :
        MovesTokens host
        → (token : Address) → w.token ≡ some token
        → (holder : Address)
        → host.balance w'.tokens token holder
          ≡ paid_in holder sender env.current_contract
              (host.balance w.tokens token holder)
              (amounts requests)

  -- A creation of a dated request stores what the batch stores for it.
  creation_stores :
      (r : StreamRequest) (w : World T) {w' : World T} {id : ℕ}
      → r.start_time ≢ start_now
      → (e : IsCreation host env sender r.recipient r.total_amount r.start_time r.end_time w id w')
      → w' ≡ record (store_one host env sender (unwrap_or w.counter 0) r w) {
        counter = some e.next;
        total_supply = some e.supply;
        tokens = e.tokens;
        instance_live = host.extend_ttl env.sequence w.instance_live bump_threshold bump_extend;
      }
  unfolding store_one
  creation_stores r w {w'} start e =
      subst
        (λ n. w' ≡ record w {
          streams =
              insert (unwrap_or w.counter 0)
                (new_stream sender r.recipient r.total_amount n r.end_time) w.streams;
          stream_live = bump_stream_live host env (unwrap_or w.counter 0) w.stream_live;
          instance_live = host.extend_ttl env.sequence w.instance_live bump_threshold bump_extend;
          tokens = e.tokens;
          counter = some e.next;
          total_supply = some e.supply;
          events =
              w.events
              ++ stream_created (unwrap_or w.counter 0) sender r.recipient r.total_amount ∷ [];
        })
        (dated env.timestamp r.start_time start) e.left

  creation_pays :
      (r : StreamRequest) (w : World T) {w' : World T} {id : ℕ}
      → (e : IsCreation host env sender r.recipient r.total_amount r.start_time r.end_time w id w')
      → MovesTokens host
      → (token : Address) → w.token ≡ some token
      → (holder : Address)
      → host.balance e.tokens token holder
        ≡ paid_in holder sender env.current_contract
            (host.balance w.tokens token holder)
            r.total_amount
  creation_pays r w e laws token chosen holder =
      laws.moves w.tokens e.tokens token sender env.current_contract r.total_amount
        (subst
          (λ x. host.transfer w.tokens x sender env.current_contract r.total_amount ≡ some e.tokens)
          (some-injective (sym e.token_set ∙ chosen)) e.transferred)
        holder

  IsSequence-cons :
      (r : StreamRequest) (requests : List StreamRequest) (w : World T) {w₁ w' : World T} {id : ℕ}
      {ids : List ℕ}
      → r.start_time ≢ start_now
      → IsCreation host env sender r.recipient r.total_amount r.start_time r.end_time w id w₁
      → IsSequence requests w₁ ids w'
      → IsSequence (r ∷ requests) w (id ∷ ids) w'
  unfolding amounts ids_from store_all store_one
  IsSequence-cons r requests w {w₁} {w'} {id} {ids} start e others =
      let rest = subst (λ v. IsSequence requests v ids w') (creation_stores r w start e) others in
      let first = unwrap_or w.counter 0 in
      let next_eq = (checked_add_u64-some _ _ _ e.counted).0 in
      record {
        numbered =
            ap (λ i. i ∷ ids) (sym e.numbered)
            ∙ ap (λ is. first ∷ is) (rest.numbered ∙ ap (λ n. ids_from n requests) next_eq);
        counted = rest.counted ∙ one_more e.next first (length requests) next_eq;
        counter_set = λ _. rest.counter_set refl;
        opened = λ _. rest.counter_set refl;
        supplied =
            rest.supplied
            ∙ ap (λ x. x +ℤ amounts requests) (checked_add-some _ _ _ e.supplied).0
            ∙ +ℤ_assoc (unwrap_or w.total_supply (pos 0)) r.total_amount (amounts requests);
        left =
            rest.left
            ∙ ap (λ v. closed_as v w')
                (store_all-apart e.next requests (store_one host env sender first r w) (some e.next)
                  (some e.supply) e.tokens
                  (host.extend_ttl env.sequence w.instance_live bump_threshold bump_extend))
            ∙ ap
                (λ n.
                  closed_as
                    (store_all host env sender n requests (store_one host env sender first r w)) w')
                next_eq;
        balances = λ laws token chosen holder.
            rest.balances laws token chosen holder
            ∙ ap (λ b. paid_in holder sender env.current_contract b (amounts requests))
                (creation_pays r w e laws token chosen holder)
            ∙ paid_by (holder == env.current_contract) (holder == sender)
                (host.balance w.tokens token holder) r.total_amount (amounts requests);
      }

  pub create_each-done :
      (requests : List StreamRequest) {w w' : World T} {ids : List ℕ}
      → AllDated requests
      → create_each requests w ≡ done ids w'
      → IsSequence requests w ids w'
  unfolding create_each amounts ids_from store_all
  create_each-done [] {w} {w'} all h =
      let (same, left) = done-result h in
      record {
        numbered = sym same;
        counted = ap (λ v. unwrap_or v.counter 0) left ∙ sym (none_more (unwrap_or w.counter 0));
        counter_set = λ set. ap (λ v. is_some v.counter) left ∙ set;
        opened = λ some_requests. cc;
        supplied =
            ap (λ v. unwrap_or v.total_supply (pos 0)) left
            ∙ sym (add_zero (unwrap_or w.total_supply (pos 0)));
        left = rw left refl;
        balances = λ laws token chosen holder.
            ap (λ v. host.balance v.tokens token holder) left
            ∙ sym (
                paid_none (holder == env.current_contract) (holder == sender)
                  (host.balance w.tokens token holder));
      }
  create_each-done (r ∷ requests) {w} {w'} all h =
      after_any (create_stream host env sender r.recipient r.total_amount r.start_time r.end_time) _
        h
        λ id w₁ created h₁. after_any (create_each requests) _ h₁ λ ids₁ w₂ others h₂.
          let (same, left) = done-result h₂ in
          let e =
            create_stream-done host env sender r.recipient r.total_amount r.start_time r.end_time w
              created in
          subst (λ is. IsSequence (r ∷ requests) w is w') same
            (subst (λ v. IsSequence (r ∷ requests) w (id ∷ ids₁) v) (sym left)
              (IsSequence-cons r requests w all.0 e (create_each-done requests all.1 others)))
