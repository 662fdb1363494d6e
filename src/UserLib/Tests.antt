-- ===== src/UserLib/Tests.antt =====
-- The user library on concrete strings.
use cs461_hw.Base.{◌≡◌, refl, [], ◌∷◌, pos, negsuc, arith}
use cs461_hw.UserLib.{atoi, print_d, dec_loop, print_x32, hex_loop, printf, emit, int}
use cs461_hw.UserLib.Decimal.{atoi-print_d}
use cs461_hw.UserLib.Format.{printf_decimal}

hex : print_x32 0xbeef ≡ b'0' ∷ b'0' ∷ b'0' ∷ b'0' ∷ b'b' ∷ b'e' ∷ b'e' ∷ b'f' ∷ []
unfolding print_x32 hex_loop
hex = refl

negative :
    print_d (negsuc 0x7fffffff)
    ≡ b'-' ∷ b'2' ∷ b'1' ∷ b'4' ∷ b'7' ∷ b'4' ∷ b'8' ∷ b'3' ∷ b'6' ∷ b'4' ∷ b'8' ∷ []
unfolding print_d dec_loop
negative = refl

atoi-print_d_example : atoi (print_d (pos 461)) ≡ 461
atoi-print_d_example = atoi-print_d 461 (omega arith)

printf_decimal_example :
    printf (b'n' ∷ b'=' ∷ b'%' ∷ b'd' ∷ []) (int (pos 7) ∷ [])
    ≡ emit (b'n' ∷ b'=' ∷ print_d (pos 7)) (printf [] [])
printf_decimal_example =
    printf_decimal (b'n' ∷ b'=' ∷ []) [] (pos 7) [] (omega arith, (omega arith, tt))
