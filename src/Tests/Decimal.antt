-- ===== src/Tests/Decimal.antt =====
-- Decimal numbers of five digits.
use Prim.Native.Char.{Char, code}
use cpp_msgpack_rpc.Common.{
  ℕ, zero, suc, ◌+◌, ◌-◌, ◌*◌, ◌/◌, ◌%◌, ◌^◌, ◌<◌, ◌≡◌, refl, true, Option, none, some, ltb,
  if◌then◌else◌, String, arith,
}
use cpp_msgpack_rpc.Addresses.Uri.{is_digit}

abbrev pub digit_char : ℕ → Char
digit_char zero = "0"
digit_char (suc zero) = "1"
digit_char (suc (suc zero)) = "2"
digit_char (suc (suc (suc zero))) = "3"
digit_char (suc (suc (suc (suc zero)))) = "4"
digit_char (suc (suc (suc (suc (suc zero))))) = "5"
digit_char (suc (suc (suc (suc (suc (suc zero)))))) = "6"
digit_char (suc (suc (suc (suc (suc (suc (suc zero))))))) = "7"
digit_char (suc (suc (suc (suc (suc (suc (suc (suc zero)))))))) = "8"
digit_char (suc (suc (suc (suc (suc (suc (suc (suc (suc n))))))))) = "9"

abbrev pub print : ℕ → String
print n = String.◌∷◌ (digit_char (n / 10000 % 10)) (
    String.◌∷◌ (digit_char (n / 1000 % 10)) (
      String.◌∷◌ (digit_char (n / 100 % 10))
        (String.◌∷◌ (digit_char (n / 10 % 10)) (String.◌∷◌ (digit_char (n % 10)) String.[]))))

abbrev pub value : ℕ → String → ℕ
value n String.[] = n
value n (String.◌∷◌ c s) = value (n * 10 + (code c - 48)) s

abbrev pub small_only : ℕ → Option ℕ
small_only n = if ltb n 65536 then some n else none

abbrev pub to_uint16 : String → Option ℕ
to_uint16 w = small_only (value 0 w)

code-digit_char : (d : ℕ) → d < 10 → code (digit_char d) ≡ 48 + d
code-digit_char zero h = refl
code-digit_char (suc zero) h = refl
code-digit_char (suc (suc zero)) h = refl
code-digit_char (suc (suc (suc zero))) h = refl
code-digit_char (suc (suc (suc (suc zero)))) h = refl
code-digit_char (suc (suc (suc (suc (suc zero))))) h = refl
code-digit_char (suc (suc (suc (suc (suc (suc zero)))))) h = refl
code-digit_char (suc (suc (suc (suc (suc (suc (suc zero))))))) h = refl
code-digit_char (suc (suc (suc (suc (suc (suc (suc (suc zero)))))))) h = refl
code-digit_char (suc (suc (suc (suc (suc (suc (suc (suc (suc n))))))))) h = omega arith

pub digit_char-digit : (d : ℕ) → is_digit (digit_char d) ≡ true
digit_char-digit zero = refl
digit_char-digit (suc zero) = refl
digit_char-digit (suc (suc zero)) = refl
digit_char-digit (suc (suc (suc zero))) = refl
digit_char-digit (suc (suc (suc (suc zero)))) = refl
digit_char-digit (suc (suc (suc (suc (suc zero))))) = refl
digit_char-digit (suc (suc (suc (suc (suc (suc zero)))))) = refl
digit_char-digit (suc (suc (suc (suc (suc (suc (suc zero))))))) = refl
digit_char-digit (suc (suc (suc (suc (suc (suc (suc (suc zero)))))))) = refl
digit_char-digit (suc (suc (suc (suc (suc (suc (suc (suc (suc n))))))))) = refl

pub small_only_fits : (n p : ℕ) → small_only n ≡ some p → p < 2 ^ 16
small_only_fits n p e = ground arith

pub value-print : (n : ℕ) → n < 65536 → value 0 (print n) ≡ n
value-print n h =
    rw
      (
        code-digit_char (n / 10000 % 10) (omega arith),
        code-digit_char (n / 1000 % 10) (omega arith),
        code-digit_char (n / 100 % 10) (omega arith),
        code-digit_char (n / 10 % 10) (omega arith),
        code-digit_char (n % 10) (omega arith),
      )
      (omega arith)
