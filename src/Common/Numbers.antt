-- ===== src/Common/Numbers.antt =====
-- Go's signed `int`, as far as the program uses one, and fmt's %d.
use Prim.Native.Nat.{ℕ, zero, suc, ◌/◌, ◌%◌}
use Prim.Native.Char.{Char}
use Prim.Native.String.{String, ◌∷◌}
use abctl.Common.Tests.{ltb, if◌then◌else◌}
use abctl.Common.Text.{◌++◌}

-- `negsuc n` is -(n + 1).
pub data ℤ : Type 0 where
  pos : ℕ → ℤ
  negsuc : ℕ → ℤ

digit : ℕ → Char
digit zero = "0"
digit (suc zero) = "1"
digit (suc (suc zero)) = "2"
digit (suc (suc (suc zero))) = "3"
digit (suc (suc (suc (suc zero)))) = "4"
digit (suc (suc (suc (suc (suc zero))))) = "5"
digit (suc (suc (suc (suc (suc (suc zero)))))) = "6"
digit (suc (suc (suc (suc (suc (suc (suc zero))))))) = "7"
digit (suc (suc (suc (suc (suc (suc (suc (suc zero)))))))) = "8"
digit _ = "9"

-- The digits of a number, put before a text. The number falls at each round, so that a fuel above
-- it is enough.
digits : ℕ → ℕ → String → String
unfolding digit
digits zero n after = after
digits (suc fuel) n after =
    let longer = digits fuel (n / 10) (digit (n % 10) ∷ after) in
    if ltb n 10 then digit n ∷ after else longer

unfoldable pub decimal : ℕ → String
unfolding digits
decimal n = digits (suc n) n ""

-- fmt.Sprintf("%d", n)
unfoldable pub show_int : ℤ → String
unfolding decimal
show_int (pos n) = decimal n
show_int (negsuc n) = "-" ++ decimal (suc n)
