-- ===== src/VarInt/RoundTrip.antt =====
-- What `VarInt` encodes it decodes, and `len` is the length of the encoding.
use rust_defluencer.Base.{ℕ, ◌/◌, ◌^◌, ◌<◌, ◌≡◌, refl, List, ◌++◌, ok, length, arith}
use rust_defluencer.VarInt.{
  to_ne_bytes, from_ne_bytes, len, consensus_encode, word_at, consensus_decode,
}

length-to_ne_bytes : (w n : ℕ) → length (to_ne_bytes w n) ≡ w
unfolding to_ne_bytes
length-to_ne_bytes ℕ.zero n = refl
length-to_ne_bytes (ℕ.suc w) n = omega (arith, length-to_ne_bytes w (n / 256))

word_at-to_ne_bytes :
    (w n : ℕ) (rest : List ℕ) → word_at w (to_ne_bytes w n ++ rest) ≡ ok (to_ne_bytes w n)
unfolding word_at to_ne_bytes
word_at-to_ne_bytes ℕ.zero n rest = refl
word_at-to_ne_bytes (ℕ.suc w) n rest = rw (word_at-to_ne_bytes w (n / 256) rest)

from_ne_bytes-to_ne_bytes_2 : (n : ℕ) → n < 0x10000 → from_ne_bytes (to_ne_bytes 2 n) ≡ n
unfolding from_ne_bytes to_ne_bytes
from_ne_bytes-to_ne_bytes_2 n h = omega arith

from_ne_bytes-to_ne_bytes_4 : (n : ℕ) → n < 0x100000000 → from_ne_bytes (to_ne_bytes 4 n) ≡ n
unfolding from_ne_bytes to_ne_bytes
from_ne_bytes-to_ne_bytes_4 n h = omega arith

from_ne_bytes-to_ne_bytes_8 : (n : ℕ) → n < 2 ^ 64 → from_ne_bytes (to_ne_bytes 8 n) ≡ n
unfolding from_ne_bytes to_ne_bytes
from_ne_bytes-to_ne_bytes_8 n h = omega arith

-- For every 64-bit number, decoding what was encoded gives the number back, whatever bytes follow
-- the encoding.
pub consensus_decode-consensus_encode :
    (n : ℕ) (rest : List ℕ) → n < 2 ^ 64 → consensus_decode (consensus_encode n ++ rest) ≡ ok n
unfolding consensus_decode consensus_encode
consensus_decode-consensus_encode n rest h = ground (
  arith,
  word_at-to_ne_bytes 2 n rest,
  word_at-to_ne_bytes 4 n rest,
  word_at-to_ne_bytes 8 n rest,
  from_ne_bytes-to_ne_bytes_2 n,
  from_ne_bytes-to_ne_bytes_4 n,
  from_ne_bytes-to_ne_bytes_8 n,
)

-- `len` is the number of bytes that `consensus_encode` writes, for every number.
pub length-consensus_encode : (n : ℕ) → length (consensus_encode n) ≡ len n
unfolding consensus_encode len
length-consensus_encode n =
    ground (arith, length-to_ne_bytes 2 n, length-to_ne_bytes 4 n, length-to_ne_bytes 8 n)
