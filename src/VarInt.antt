-- ===== src/VarInt.antt =====
-- defluencer/src/utils.rs: `VarInt`, the variable-length unsigned integers of Bitcoin messages.
-- The source writes words with `to_ne_bytes`, in the byte order of the machine. Modelled for a
-- little-endian one (x86_64, wasm32, aarch64); a byte is a number below 256.
pub mod RoundTrip
mod Tests
use rust_defluencer.Base.{
  ℕ, ◌+◌, ◌*◌, ◌/◌, ◌%◌, ◌^◌, Option, none, some, List, [], ◌∷◌, Result, ok, panic, leb, ◌==◌,
  if◌then◌else◌, get_elem?, or_panic, and_then,
}

-- The bytes of `n as uW`, for a word of `w` bytes, the lowest first.
unfoldable pub to_ne_bytes : ℕ → ℕ → List ℕ
to_ne_bytes ℕ.zero n = []
to_ne_bytes (ℕ.suc w) n = n % 256 ∷ to_ne_bytes w (n / 256)

unfoldable pub from_ne_bytes : List ℕ → ℕ
from_ne_bytes [] = 0
from_ne_bytes (b ∷ bs) = b + 256 * from_ne_bytes bs

-- `VarInt::len`
unfoldable pub len : ℕ → ℕ
len n = if leb n 0xFC then 1 else if leb n 0xFFFF then 3 else if leb n 0xFFFFFFFF then 5 else 9

-- `VarInt::consensus_encode`
unfoldable pub consensus_encode : ℕ → List ℕ
consensus_encode n =
    if leb n 0xFC
    then n ∷ []
    else if leb n 0xFFFF
    then 0xFD ∷ to_ne_bytes 2 n
    else if leb n 0xFFFFFFFF
    then 0xFE ∷ to_ne_bytes 4 n
    else 0xFF ∷ to_ne_bytes 8 n

-- `data[1], …, data[w]`: each index panics past the end of the slice.
unfoldable pub word_at : ℕ → List ℕ → Result (List ℕ)
word_at ℕ.zero bs = ok []
word_at (ℕ.suc w) [] = panic
word_at (ℕ.suc w) (b ∷ bs) = and_then (word_at w bs) (λ word. ok (b ∷ word))

unfoldable pub decode_after : ℕ → List ℕ → Result ℕ
unfolding word_at
decode_after tag rest =
    if tag == 0xFF
    then and_then (word_at 8 rest) (λ word. ok (from_ne_bytes word))
    else if tag == 0xFE
    then and_then (word_at 4 rest) (λ word. ok (from_ne_bytes word))
    else if tag == 0xFD
    then and_then (word_at 2 rest) (λ word. ok (from_ne_bytes word))
    else ok tag

-- `VarInt::consensus_decode`
unfoldable pub consensus_decode : List ℕ → Result ℕ
unfolding decode_after
consensus_decode [] = panic
consensus_decode (tag ∷ rest) = decode_after tag rest
