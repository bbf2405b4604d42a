-- ===== src/VarInt/Tests.antt =====
-- Runs of `VarInt`, and its theorems at concrete inputs.
use rust_defluencer.Base.{◌≡◌, refl, [], ◌∷◌, ◌++◌, ok, panic, length, arith}
use rust_defluencer.VarInt.{len, consensus_encode, consensus_decode, to_ne_bytes}
use rust_defluencer.VarInt.RoundTrip.{consensus_decode-consensus_encode, length-consensus_encode}

encode_three_bytes : consensus_encode 0x1234 ≡ 0xFD ∷ 0x34 ∷ 0x12 ∷ []
unfolding consensus_encode to_ne_bytes
encode_three_bytes = refl

decode_short : consensus_decode (0xFE ∷ 1 ∷ 2 ∷ []) ≡ panic
unfolding consensus_decode
decode_short = refl

consensus_decode-consensus_encode_example :
    consensus_decode (consensus_encode 70000 ++ 7 ∷ []) ≡ ok 70000
consensus_decode-consensus_encode_example =
    consensus_decode-consensus_encode 70000 (7 ∷ []) (omega arith)

length-consensus_encode_example : length (consensus_encode 70000) ≡ len 70000
length-consensus_encode_example = length-consensus_encode 70000
