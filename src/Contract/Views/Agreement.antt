-- ===== src/Contract/Views/Agreement.antt =====
-- The summary view against the single views, and the range of the percentage (src/lib.rs).
use stream_pay_contracts.Base.{ℕ, ◌*◌, ◌/◌, ◌≤◌, ◌≡◌, refl, sym, ap, ◌∙◌, some, false, arith}
use stream_pay_contracts.Base.Int.{
  ℤ, pos, negsuc, pos_part, leb_ℤ, checked_mul, checked_mul-some, ◌*ℤ◌, ◌/ℤ◌, ◌≤ℤ◌, *ℤ-pos,
}
use stream_pay_contracts.Base.Dict.{lookup}
use stream_pay_contracts.Types.{Stream, StreamSummary}
use stream_pay_contracts.Types.Valid.{IsWellFormed}
use stream_pay_contracts.Vesting
use stream_pay_contracts.Host.{Env}
use stream_pay_contracts.World.{World, done}
use stream_pay_contracts.World.Inversion.{after_or_raise, after_try, done-result}
use stream_pay_contracts.Contract.Views.{
  as_u32, percent_withdrawn, withdrawn_bps, get_stream, get_status, get_summary, streamed_amount,
  progress_bps, withdrawable_amount,
}

module _ {T : Type 0} (env : Env) where
  -- Where `get_summary` returns, the single views of the vested amount, the withdrawable amount,
  -- the progress and the status return what it holds.
  pub get_summary_agrees :
      (id : ℕ) (w : World T) {r : StreamSummary} {w' : World T}
      → get_summary env id w ≡ done r w'
      → (streamed_amount env id w ≡ done r.vested w)
        × (withdrawable_amount env id w ≡ done r.withdrawable w)
        × (progress_bps env id w ≡ done r.progress_bps w)
        × (get_status id w ≡ done r.status w)
  unfolding get_summary get_stream get_status streamed_amount progress_bps withdrawable_amount
  get_summary_agrees id w {r} {w'} h = after_or_raise (lookup id w.streams) _ _ h λ s found h₁.
      after_try (Vesting.vested s env.timestamp) _ h₁ λ v vests h₂.
        after_try (Vesting.withdrawable s env.timestamp) _ h₂ λ a due h₃.
          let r_eq = (done-result h₃).0 in
          (
            rw (found, vests, ← r_eq) refl,
            rw (found, due, ← r_eq) refl,
            rw (found, ← r_eq) refl,
            rw (found, ← r_eq) refl,
          )

quotient_small : (a b : ℕ) → a ≤ b → 1 ≤ b → a * 10_000 / b ≤ 10_000
quotient_small a b h p = grind arith

-- The cast keeps what is small.
cast_small : (n : ℕ) → n ≤ 10_000 → as_u32 (pos n) ≡ n
unfolding as_u32
cast_small n h = grind arith

-- The cast of a share keeps it.
cast_share :
    (x t : ℤ)
    → pos 0 ≤ℤ x
    → x ≤ℤ t
    → pos 1 ≤ℤ t
    → as_u32 (x *ℤ pos 10_000 /ℤ t) ≡ pos_part x * 10_000 / pos_part t
unfolding ◌/ℤ◌
cast_share (pos a) (pos b) low high positive =
    rw (*ℤ-pos a 10_000) (cast_small _ (quotient_small a b (omega arith) (omega arith)))
cast_share (negsuc a) t low high positive = absurd (omega arith)
cast_share (pos a) (negsuc b) low high positive = absurd (omega arith)

not_empty : (t : ℤ) → pos 1 ≤ℤ t → leb_ℤ t (pos 0) ≡ false
not_empty t h = ground arith

bounded :
    (p : ℕ) (x t : ℤ)
    → p ≡ pos_part x * 10_000 / pos_part t
    → pos 0 ≤ℤ x
    → x ≤ℤ t
    → pos 1 ≤ℤ t
    → p ≤ 10_000
bounded p (pos a) (pos b) e low high positive =
    rw e (quotient_small a b (omega arith) (omega arith))
bounded p (negsuc a) t e low high positive = absurd (omega arith)
bounded p (pos a) (negsuc b) e low high positive = absurd (omega arith)

-- Where `percent_withdrawn` returns for a well-formed stream, it is the withdrawn share of the
-- total in basis points, rounded down, which the cast to u32 keeps, and at most 10_000.
pub percent_withdrawn_lem :
    {T : Type 0} (id : ℕ) (w : World T) (s : Stream) {p : ℕ} {w' : World T}
    → lookup id w.streams ≡ some s
    → IsWellFormed s
    → percent_withdrawn id w ≡ done p w'
    → (p ≡ pos_part s.withdrawn * 10_000 / pos_part s.total) × (p ≤ 10_000)
unfolding percent_withdrawn withdrawn_bps get_stream
percent_withdrawn_lem id w s {p} {w'} found well h =
    after_or_raise (checked_mul s.withdrawn (pos 10_000)) _ _
      (rw (found, not_empty s.total well.total_positive) at h)
      λ scaled multiplied h₁.
        let share =
          sym (done-result h₁).0
          ∙ ap (λ x. as_u32 (x /ℤ s.total)) (checked_mul-some _ _ _ multiplied)
          ∙ cast_share s.withdrawn s.total well.withdrawn_nonneg well.withdrawn_le_total
              well.total_positive in
        (
          share,
          bounded p s.withdrawn s.total share well.withdrawn_nonneg well.withdrawn_le_total
              well.total_positive,
        )
