-- ===== src/Console/Tests.antt =====
-- What is printed for concrete formats and numbers.
use project_luciano.Base.{
  ℕ, zero, suc, ◌+◌, bit_and, ◌≡◌, refl, ap, ◌∙◌, some, List, [], ◌∷◌, ◌++◌, map, arith, All,
}
use project_luciano.Base.Int.{pos, negsuc}
use project_luciano.Console.Serial.{Serial, IsLive, data_port, k_print, k_print_lem}
use project_luciano.Console.{
  fill, unwind, printed, k_printf_lu, k_printf_d, k_printf_x, int_arg, kind, run, k_printf,
}
use project_luciano.Console.Format.{
  Piece, char, d, x, s, IsPlain, format, arguments, output, outputs, k_printf-format,
}

-- "a%d%x%s" with -12, 0xbad and "z".
abbrev pieces : List Piece
pieces = char b'a' ∷ d (negsuc 11) ∷ x 0xBAD ∷ s (b'z' ∷ []) ∷ []

pieces-IsPlain : All IsPlain pieces
unfolding kind
pieces-IsPlain = (ground arith, (tt, (tt, (tt, tt))))

k_printf-format_example : k_printf (format pieces) (arguments pieces) ≡ outputs pieces
k_printf-format_example = k_printf-format pieces pieces-IsPlain

pieces_printed : outputs pieces ≡ some (b'a' ∷ b'-' ∷ b'1' ∷ b'2' ∷ b'b' ∷ b'a' ∷ b'd' ∷ b'z' ∷ [])
unfolding outputs output k_printf_d k_printf_x printed fill unwind
pieces_printed = refl

zero_unprinted : k_printf_lu 0 ≡ some []
unfolding k_printf_lu printed fill unwind
zero_unprinted = refl

-- Behind "%%" the second '%' starts a directive again.
percent_percent :
    k_printf (b'%' ∷ b'%' ∷ b'd' ∷ []) (int_arg (pos 5) ∷ []) ≡ some (b'%' ∷ b'5' ∷ [])
unfolding k_printf run kind k_printf_d printed fill unwind
percent_percent = refl

-- The port is busy for two reads.
abbrev status : ℕ → ℕ
status zero = 0
status (suc zero) = 0
status (suc (suc n)) = 0x60

status-IsLive : IsLive status 3
status-IsLive zero = (2, omega arith, λ e. ground (arith, e))
status-IsLive (suc zero) = (1, omega arith, λ e. ground (arith, e))
status-IsLive (suc (suc n)) =
    let same : suc (suc n) ≡ suc (suc n) + 0 = omega arith in
    (0, omega arith, λ e. ground (arith, ap (λ k. bit_and (status k) 0x20) same ∙ e))

abbrev quiet : Serial
quiet = record { reads = 0; writes = [] }

k_print_lem_example :
    (t : Serial) × (k_print status 3 (b'o' ∷ b'k' ∷ []) quiet ≡ some t)
    × (t.writes ≡ quiet.writes ++ map (λ c. (data_port, c)) (b'o' ∷ b'k' ∷ []))
k_print_lem_example = k_print_lem status 3 (b'o' ∷ b'k' ∷ []) quiet status-IsLive
