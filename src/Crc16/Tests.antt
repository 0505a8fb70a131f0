-- ===== src/Crc16/Tests.antt =====
-- Runs of crc16-ccitt.c.
use canopen_node.Crc16.{crc16_step, crc16_ccitt}
use canopen_node.Crc16.Bitwise.{bitwise_crc, crc16_ccitt-eq-bitwise_crc}
use canopen_node.Prelude.{ℕ, List, [], ◌∷◌, ◌≡◌, refl, arith}

-- The text "123456789".
abbrev digits : List ℕ
digits = 0x31 ∷ 0x32 ∷ 0x33 ∷ 0x34 ∷ 0x35 ∷ 0x36 ∷ 0x37 ∷ 0x38 ∷ 0x39 ∷ []

check_value : crc16_ccitt digits 0 ≡ 0x31c3
unfolding crc16_ccitt crc16_step
check_value = refl

crc16_ccitt-eq-bitwise_crc_example : crc16_ccitt digits 0 ≡ bitwise_crc digits 0
crc16_ccitt-eq-bitwise_crc_example = crc16_ccitt-eq-bitwise_crc digits 0 (omega arith) (omega arith)
