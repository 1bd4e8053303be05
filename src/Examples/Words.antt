-- ===== src/Examples/Words.antt =====
-- Branch and jump words.
use rv32im_so_c_performance.Base.{◌≡◌, refl, some, arith}
use rv32im_so_c_performance.Base.Int.{pos, ◌+ℤ◌}
use rv32im_so_c_performance.PyText.Hex.{low32}
use rv32im_so_c_performance.Decode.{branch_target}
use rv32im_so_c_performance.Decode.Targets.{signed, encode_branch, branch_target-encode}

-- BNE x1, x2, -8 at 0x10
branch_target-encode_example :
    branch_target 16 (encode_branch 8184 1 2 1) ≡ some (low32 (pos 16 +ℤ signed 12 8184))
branch_target-encode_example =
    branch_target-encode 8184 1 2 1 (omega arith) refl (omega arith) (omega arith) (omega arith) 16
