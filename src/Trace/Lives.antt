-- ===== src/Trace/Lives.antt =====
-- How long the persistent entries of the streams live (`write_stream` in src/storage.rs).
pub mod Calls
use stream_pay_contracts.Base.{
  ℕ, ◌+◌, ◌≤◌, ◌≡◌, refl, sym, ap, ◌∙◌, subst, true, false, arith, ◌==◌, if◌then◌else◌, Bool-cases,
  inl, inr, some,
}
use stream_pay_contracts.Base.Dict.{lookup, insert, lookup-insert}
use stream_pay_contracts.Types.{Stream}
use stream_pay_contracts.Host.{Env, Host}
use stream_pay_contracts.World.{World}
use stream_pay_contracts.Storage.{bump_stream_live, bump_threshold, bump_extend}

-- What the host documents: setting an entry does not shorten its life, nor does extending it, and
-- an extended entry lives for the threshold at least, as an entry that would not is given the
-- longer life that the call names.
pub record ExtendsLife {T : Type 0} (host : Host T) : Type 0 where
  pub set_keeps : (sequence live : ℕ) → live ≤ host.set_live sequence live
  pub extend_keeps :
      (sequence live threshold extend_to : ℕ)
      → threshold ≤ extend_to
      → live ≤ host.extend_ttl sequence live threshold extend_to
  pub extend_reaches :
      (sequence live threshold extend_to : ℕ)
      → threshold ≤ extend_to
      → sequence + threshold ≤ host.extend_ttl sequence live threshold extend_to

-- A call from the first world to the second has left the stream under the id and its life alone,
-- or has not shortened the life, which now reaches the threshold.
pub data IsLasting {T : Type 0} (env : Env) (w w' : World T) (k : ℕ) : Type 0 where
  untouched :
      lookup k w'.streams ≡ lookup k w.streams
      → w'.stream_live k ≡ w.stream_live k
      → IsLasting env w w' k
  renewed :
      w.stream_live k ≤ w'.stream_live k
      → env.sequence + bump_threshold ≤ w'.stream_live k
      → IsLasting env w w' k

le_eq : {a b c : ℕ} → a ≤ b → c ≡ b → a ≤ c
le_eq h e = omega (arith, h, e)

eq_le : {a b c : ℕ} → a ≡ b → a ≤ c → b ≤ c
eq_le e h = omega (arith, e, h)

le_trans : {a b c : ℕ} → a ≤ b → b ≤ c → a ≤ c
le_trans h k = omega (arith, h, k)

same_key : (k id : ℕ) → (k == id) ≡ true → k ≡ id
same_key k id h = ground arith

module _ {T : Type 0} (env : Env) (k : ℕ) where
  -- One change after the other.
  pub IsLasting-trans :
      {w v u : World T} → IsLasting env w v k → IsLasting env v u k → IsLasting env w u k
  IsLasting-trans (untouched a b) (untouched c d) = untouched (c ∙ a) (d ∙ b)
  IsLasting-trans (untouched a b) (renewed c d) = renewed (eq_le b c) d
  IsLasting-trans (renewed a b) (untouched c d) = renewed (le_eq a d) (le_eq b d)
  IsLasting-trans (renewed a b) (renewed c d) = renewed (le_trans a c) d

  -- A world with the same streams and lives.
  pub unchanged-IsLasting :
      (w w' : World T)
      → w'.streams ≡ w.streams
      → w'.stream_live ≡ w.stream_live
      → IsLasting env w w' k
  unchanged-IsLasting w w' streams lives = untouched (ap (lookup k) streams) (ap (λ f. f k) lives)

  -- `write_stream`
  pub written-IsLasting :
      (host : Host T)
      → ExtendsLife host
      → (id : ℕ) (s : Stream) (w w' : World T) → w'.streams ≡ insert id s w.streams
      → w'.stream_live ≡ bump_stream_live host env id w.stream_live
      → IsLasting env w w' k
  written-IsLasting host laws id s w w' streams lives = elim (Bool-cases (k == id)) [
    | inl same ↦
        let at_id : w'.stream_live k ≡ extended (w.stream_live id) =
          ap (λ f. f k) lives
          ∙ ap (λ b. if b then extended (w.stream_live id) else w.stream_live k) same in
        let kept = le_trans (laws.set_keeps env.sequence (w.stream_live id)) (
          laws.extend_keeps env.sequence (host.set_live env.sequence (w.stream_live id))
            bump_threshold bump_extend (omega arith)) in
        renewed
          (le_eq
            (subst (λ j. w.stream_live j ≤ extended (w.stream_live id)) (sym (same_key k id same))
              kept)
            at_id)
          (le_eq
            (laws.extend_reaches env.sequence (host.set_live env.sequence (w.stream_live id))
              bump_threshold bump_extend (omega arith))
            at_id)
    | inr other ↦
        untouched
          (ap (lookup k) streams
            ∙ lookup-insert k id s w.streams
            ∙ ap (λ b. if b then some s else lookup k w.streams) other)
          (ap (λ f. f k) lives
            ∙ ap (λ b. if b then extended (w.stream_live id) else w.stream_live k) other)
  ]
    where
      extended : ℕ → ℕ
      extended live =
          host.extend_ttl env.sequence (host.set_live env.sequence live) bump_threshold bump_extend
