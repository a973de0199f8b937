-- ===== src/Text/Decimal.antt =====
-- Printing a number in decimal, as Python's f"{n}" does.
use Prim.Native.Nat.{◌/◌, ◌%◌}
use grbl_proxy.Prelude.{
  ℕ, zero, suc, ◌+◌, ◌-◌, ◌*◌, ◌<◌, ◌≡◌, refl, Bool-cases, inl, inr, [], ◌∷◌, ◌++◌, ltb, arith,
  if◌then◌else◌,
}
use grbl_proxy.Text.{Text, decimal}

-- with fuel for the digits
unfoldable pub print_by : ℕ → ℕ → Text
print_by zero n = []
print_by (suc fuel) n =
    let high = print_by fuel (n / 10) in
    if ltb n 10 then (b'0' + n) ∷ [] else high ++ (b'0' + n % 10) ∷ []

-- f"{n}"
unfoldable pub print : ℕ → Text
unfolding print_by
print n = print_by (suc n) n

decimal-snoc : (acc c : ℕ) (s : Text) → decimal acc (s ++ c ∷ []) ≡ decimal acc s * 10 + (c - b'0')
unfolding decimal
decimal-snoc acc c [] = refl
decimal-snoc acc c (d ∷ s) = decimal-snoc (acc * 10 + (d - b'0')) c s

decimal-print_by : (fuel n : ℕ) → n < fuel → decimal 0 (print_by fuel n) ≡ n
unfolding print_by decimal
decimal-print_by zero n h = omega (arith, h)
decimal-print_by (suc fuel) n h = elim (Bool-cases (ltb n 10)) [
  | inl small ↦ rw small (omega arith)
  | inr big ↦
      rw
        (
          big,
          decimal-snoc 0 (b'0' + n % 10) (print_by fuel (n / 10)),
          decimal-print_by fuel (n / 10) (ground (arith, big, h)),
        )
        (omega arith)
]

-- The digits printed read back as the number.
pub decimal-print : (n : ℕ) → decimal 0 (print n) ≡ n
unfolding print
decimal-print n = decimal-print_by (suc n) n (omega arith)
