-- ===== src/Base/Text.antt =====
-- Text as the source builds it: concatenation, and numbers in decimal.
use Prim.Native.String.{String, ◌++◌ as append}
use Prim.Native.Nat.{ℕ, zero, suc, ◌/◌, ◌%◌}
use spatial_server.Base.Tests.{ltb, if◌then◌else◌}

infixr 60 ◌<>◌
abbrev pub ◌<>◌ : String → String → String
s <> t = append s t

digit : ℕ → String
digit zero = "0"
digit (suc zero) = "1"
digit (suc (suc zero)) = "2"
digit (suc (suc (suc zero))) = "3"
digit (suc (suc (suc (suc zero)))) = "4"
digit (suc (suc (suc (suc (suc zero))))) = "5"
digit (suc (suc (suc (suc (suc (suc zero)))))) = "6"
digit (suc (suc (suc (suc (suc (suc (suc zero))))))) = "7"
digit (suc (suc (suc (suc (suc (suc (suc (suc zero)))))))) = "8"
digit _ = "9"

-- The digits of a number below 10 ^ fuel.
decimal_from : ℕ → ℕ → String
unfolding digit
decimal_from zero n = ""
decimal_from (suc fuel) n =
    let rest = decimal_from fuel (n / 10) in if ltb n 10 then digit n else rest <> digit (n % 10)

-- `%d` of a number that is not negative; it has at most n + 1 digits.
unfoldable pub decimal : ℕ → String
unfolding decimal_from
decimal n = decimal_from (suc n) n
