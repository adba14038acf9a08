-- ===== src/Base/Decimal.antt =====
-- Decimal digits: what `fmt` prints for `%d`.
use Prim.Native.Nat.{ℕ, zero, suc, ◌+◌, ◌-◌, ◌*◌, ◌^◌, ◌/◌, ◌%◌, ◌≤◌, ◌<◌}
use mathlib.Core.List.{[], ◌∷◌}
use mathlib.Core.Logic.{◌≢◌, inl, inr}
use mathlib.Core.Path.{◌≡◌, refl, ap, ◌∙◌}
use native.Mathlib.Omega.{arith}
use agent_tool.Base.Tests.{ltb, if◌then◌else◌, Bool-cases}
use agent_tool.Base.Lists.{All}
use agent_tool.Base.Text.{Bytes, codes}
use agent_tool.Base.Int.{ℤ, pos, negsuc}

digits : ℕ → ℕ → Bytes → Bytes
digits zero n out = out
digits (suc f) n out =
    let out' = (b'0' + n % 10) ∷ out in
    let rest = digits f (n / 10) out' in if ltb n 10 then out' else rest

-- `n + 1` rounds suffice, since each divides by ten.
unfoldable pub decimal : ℕ → Bytes
unfolding digits
decimal n = digits (suc n) n []

unfoldable pub decimal_ℤ : ℤ → Bytes
decimal_ℤ (pos n) = decimal n
decimal_ℤ (negsuc n) = b'-' ∷ decimal (suc n)

abbrev pub IsDigit : ℕ → Type 0
IsDigit c = (b'0' ≤ c) × (c ≤ b'9')

digits-IsDigit : (f n : ℕ) (out : Bytes) → All IsDigit out → All IsDigit (digits f n out)
unfolding digits
digits-IsDigit zero n out h = h
digits-IsDigit (suc f) n out h =
    let here : IsDigit (b'0' + n % 10) = (omega arith, omega arith) in
    elim (Bool-cases (ltb n 10)) [
      | inl last ↦ rw last (here, h)
      | inr more ↦ rw more (digits-IsDigit f (n / 10) ((b'0' + n % 10) ∷ out) (here, h))
    ]

pub decimal-IsDigit : (n : ℕ) → All IsDigit (decimal n)
unfolding decimal
decimal-IsDigit n = digits-IsDigit (suc n) n [] tt

-- Reading decimal digits: a function that takes one digit after the other, such as `strconv.Atoi`,
-- comes to the number itself.
module _ {A : Type 0} (read : ℕ → Bytes → A)
    (step : (m d : ℕ) (s : Bytes)
      → d < 10
      → m * 10 + d ≤ 2 ^ 63 - 1
      → read m ((b'0' + d) ∷ s) ≡ read (m * 10 + d) s) where
  read-digits :
      (f n : ℕ) (out : Bytes) → n < f → n ≤ 2 ^ 63 - 1 → read 0 (digits f n out) ≡ read n out
  unfolding digits
  read-digits zero n out lt h = absurd (omega arith)
  read-digits (suc f) n out lt h = elim (Bool-cases (ltb n 10)) [
    | inl last ↦
        let e : 0 * 10 + n % 10 ≡ n = ground arith in
        rw last (step 0 (n % 10) out (omega arith) (omega arith) ∙ ap (λ k. read k out) e)
    | inr more ↦
        let e : n / 10 * 10 + n % 10 ≡ n = omega arith in
        rw more (
          read-digits f (n / 10) ((b'0' + n % 10) ∷ out) (ground arith) (omega arith)
          ∙ (step (n / 10) (n % 10) out (omega arith) (omega arith) ∙ ap (λ k. read k out) e))
  ]

  pub read-decimal : (n : ℕ) → n ≤ 2 ^ 63 - 1 → read 0 (decimal n) ≡ read n []
  unfolding decimal
  read-decimal n h = read-digits (suc n) n [] (omega arith) h

digits-ne-nil : (f n : ℕ) (out : Bytes) → out ≢ [] → digits f n out ≢ []
unfolding digits
digits-ne-nil zero n out h = h
digits-ne-nil (suc f) n out h = elim (Bool-cases (ltb n 10)) [
  | inl last ↦ rw last (λ e. cc)
  | inr more ↦ rw more (digits-ne-nil f (n / 10) ((b'0' + n % 10) ∷ out) (λ e. cc))
]

pub decimal-ne-nil : (n : ℕ) → decimal n ≢ []
unfolding decimal digits
decimal-ne-nil n = elim (Bool-cases (ltb n 10)) [
  | inl last ↦ rw last (λ e. cc)
  | inr more ↦ rw more (digits-ne-nil n (n / 10) ((b'0' + n % 10) ∷ []) (λ e. cc))
]

decimal_1205 : decimal 1205 ≡ codes "1205"
unfolding decimal
decimal_1205 = refl
