-- ===== src/Invariant/Payments.antt =====
-- Balances before and after a token transfer, as the token documents them.
use stream_pay_contracts.Base.Int.{
  not_positive, is_positive, ℤ, pos, ◌+ℤ◌, ◌-ℤ◌, ◌≤ℤ◌, ◌<ℤ◌, ltb_ℤ, int_laws, eq_of_parts,
}
use stream_pay_contracts.Base.{
  some-injective, ℕ, ◌≡◌, ◌≢◌, sym, ap, ◌∙◌, subst, Bool, true, false, some, arith, ◌==◌,
  if◌then◌else◌,
}
use stream_pay_contracts.Types.{Address}
use stream_pay_contracts.Host.{Host, MovesTokens}
use stream_pay_contracts.Contract.Cancel.Effect.{PaysIfPositive, skipped, paid}

-- The amount of a transfer that is made only if it is positive.
abbrev pub positive_part : ℤ → ℤ
positive_part a = if ltb_ℤ (pos 0) a then a else pos 0

pub ==_self : (a : ℕ) → (a == a) ≡ true
==_self a = ground arith

pub ==_ne : (a b : ℕ) → a ≢ b → (a == b) ≡ false
==_ne a b h = ground arith

payer : (b x : ℤ) → b +ℤ pos 0 -ℤ x ≡ b -ℤ x
payer b x = omega int_laws

payee : (b x : ℤ) → b +ℤ x -ℤ pos 0 ≡ b +ℤ x
payee b x = omega int_laws

third : (b : ℤ) → b +ℤ pos 0 -ℤ pos 0 ≡ b
third b = omega int_laws

pub positive_part_of : (x : ℤ) → pos 0 ≤ℤ x → positive_part x ≡ x
positive_part_of x h = eq_of_parts _ _ (ground arith)

pub positive_part_none : (x : ℤ) → x ≤ℤ pos 0 → positive_part x ≡ pos 0
positive_part_none x h = rw (not_positive x h)

nothing_taken : (b x : ℤ) → x ≤ℤ pos 0 → b -ℤ positive_part x ≡ b
nothing_taken b x h = rw (not_positive x h) (omega int_laws)

all_taken : (b x : ℤ) → pos 0 <ℤ x → b -ℤ positive_part x ≡ b -ℤ x
all_taken b x h = rw (is_positive x h)

kept_rest : (c : Bool) (b x : ℤ) → pos 0 ≤ℤ x → b -ℤ x ≤ℤ b +ℤ (if c then x else pos 0) -ℤ x
kept_rest true b x h = omega int_laws
kept_rest false b x h = omega int_laws

module _ {T : Type 0} (host : Host T) (laws : MovesTokens host) where
  -- A payment to another holder takes its amount from the payer and gives it to the holder.
  pub transfer_moves :
      (t t' : T) (token from to : Address) (amount : ℤ)
      → from ≢ to
      → host.transfer t token from to amount ≡ some t'
      → (host.balance t' token from ≡ host.balance t token from -ℤ amount)
        × (host.balance t' token to ≡ host.balance t token to +ℤ amount)
  transfer_moves t t' token from to amount apart h = (
    laws.moves t t' token from to amount h from
        ∙ rw (==_ne from to apart, ==_self from) (payer (host.balance t token from) amount),
    laws.moves t t' token from to amount h to
        ∙ rw (==_self to, ==_ne to from (λ e. apart (sym e)))
            (payee (host.balance t token to) amount),
  )

  -- A third holder's balance stays.
  pub transfer_others :
      (t t' : T) (token from to other : Address) (amount : ℤ)
      → other ≢ from
      → other ≢ to
      → host.transfer t token from to amount ≡ some t'
      → host.balance t' token other ≡ host.balance t token other
  transfer_others t t' token from to other amount not_from not_to h =
      laws.moves t t' token from to amount h other
      ∙ rw (==_ne other to not_to, ==_ne other from not_from) (third (host.balance t token other))

  -- A transfer that is made only for a positive amount takes that amount, or nothing.
  pub PaysIfPositive-moves :
      (t t' : T) (token from to : Address) (amount : ℤ)
      → from ≢ to
      → PaysIfPositive host (some token) from to amount t t'
      → host.balance t' token from ≡ host.balance t token from -ℤ positive_part amount
  PaysIfPositive-moves t t' token from to amount apart (skipped low same) =
      ap (λ x. host.balance x token from) same
      ∙ sym (nothing_taken (host.balance t token from) amount low)
  PaysIfPositive-moves t t' token from to amount apart (paid address positive set moved) =
      let same_token : token ≡ address = some-injective set in
      (transfer_moves t t' token from to amount apart
        (subst (λ x. host.transfer t x from to amount ≡ some t') (sym same_token) moved)).0
      ∙ sym (all_taken (host.balance t token from) amount positive)

  -- Whoever is paid, the payer keeps the rest.
  pub transfer_covers :
      (t t' : T) (token from to : Address) (amount : ℤ)
      → pos 0 ≤ℤ amount
      → host.transfer t token from to amount ≡ some t'
      → host.balance t token from -ℤ amount ≤ℤ host.balance t' token from
  transfer_covers t t' token from to amount low h =
      rw (laws.moves t t' token from to amount h from, ==_self from)
        (kept_rest (from == to) (host.balance t token from) amount low)

  -- The same for a transfer that is made only for a positive amount.
  pub PaysIfPositive-covers :
      (t t' : T) (token from to : Address) (amount : ℤ)
      → PaysIfPositive host (some token) from to amount t t'
      → host.balance t token from -ℤ positive_part amount ≤ℤ host.balance t' token from
  PaysIfPositive-covers t t' token from to amount (skipped low same) =
      rw (same, nothing_taken (host.balance t token from) amount low) (omega arith)
  PaysIfPositive-covers t t' token from to amount (paid address positive set moved) =
      let same_token : token ≡ address = some-injective set in
      rw (all_taken (host.balance t token from) amount positive) (
        transfer_covers t t' token from to amount (omega arith)
          (subst (λ x. host.transfer t x from to amount ≡ some t') (sym same_token) moved))
