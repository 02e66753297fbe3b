-- ===== src/Bytes.antt =====
-- Byte strings: `encoding/binary`'s big-endian words, `big.Int`'s `Bytes` and `SetBytes`, and
-- the fixed arrays `common.Hash` and `common.Address` of core/, which are numbers here.
pub mod RoundTrip
use plasma.Prelude.{ℕ, zero, suc, ◌+◌, ◌*◌, ◌/◌, ◌%◌, ◌^◌, List, [], ◌∷◌, ◌++◌, ◌==◌, if◌then◌else◌}

-- a `[]byte`; every element is below 256
abbrev pub Bytes : Type 0
Bytes = List ℕ

-- a `common.Hash`, the number that its 32 bytes write in base 256
abbrev pub Hash : Type 0
Hash = ℕ

-- a `common.Address`, likewise of 20 bytes
abbrev pub Address : Type 0
Address = ℕ

-- `common.Hash{}`
abbrev pub zero_hash : Hash
zero_hash = 0

-- the `w` low bytes of `n`, the highest first: `binary.BigEndian.PutUint64` at 8, `PutUint32` at
-- 4, `hash.Bytes()` at 32, `address.Bytes()` at 20
unfoldable pub put_uint : ℕ → ℕ → Bytes
put_uint zero n = []
put_uint (suc w) n = put_uint w (n / 256) ++ (n % 256) ∷ []

unfoldable pub set_bytes_from : ℕ → Bytes → ℕ
set_bytes_from acc [] = acc
set_bytes_from acc (b ∷ bs) = set_bytes_from (acc * 256 + b) bs

-- `new(big.Int).SetBytes(buf)` and `binary.BigEndian.Uint64`
unfoldable pub set_bytes : Bytes → ℕ
unfolding set_bytes_from
set_bytes bs = set_bytes_from 0 bs

-- `common.BytesToHash`, which keeps the last 32 bytes
unfoldable pub bytes_to_hash : Bytes → Hash
unfolding set_bytes
bytes_to_hash bs = set_bytes bs % 256 ^ 32

-- `common.BytesToAddress`, which keeps the last 20 bytes
unfoldable pub bytes_to_address : Bytes → Address
unfolding set_bytes
bytes_to_address bs = set_bytes bs % 256 ^ 20

-- the digits of `n` in base 256 with no leading zero; the fuel is `n`, which every round lowers
unfoldable pub minimal_bytes : ℕ → ℕ → Bytes
minimal_bytes zero n = []
minimal_bytes (suc fuel) n =
    let rest = minimal_bytes fuel (n / 256) in if n == 0 then [] else rest ++ (n % 256) ∷ []

-- `x.Bytes()` of a `*big.Int` whose absolute value is `n`
unfoldable pub big_bytes : ℕ → Bytes
unfolding minimal_bytes
big_bytes n = minimal_bytes n n
