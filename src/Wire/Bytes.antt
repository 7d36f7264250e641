-- ===== src/Wire/Bytes.antt =====
-- Numbers as bytes. The machine is little-endian, so `htonl` and `ntohl` exchange the bytes of a
-- word.
use client_server_protocoale.Common.{
  ℕ, ◌+◌, ◌*◌, ◌/◌, ◌%◌, ◌^◌, ◌<◌, ◌≡◌, List, [], ◌∷◌, ◌++◌, get_or, length, refl, arith,
}

unfoldable pub be32 : ℕ → List ℕ
be32 x = x / 16777216 % 256 ∷ x / 65536 % 256 ∷ x / 256 % 256 ∷ x % 256 ∷ []

abbrev pub le32 : ℕ → List ℕ
le32 x = x % 256 ∷ x / 256 % 256 ∷ x / 65536 % 256 ∷ x / 16777216 % 256 ∷ []

abbrev pub le16 : ℕ → List ℕ
le16 x = x % 256 ∷ x / 256 % 256 ∷ []

-- The number that the first bytes of an array stand for.
unfoldable pub read_be32 : List ℕ → ℕ
read_be32 b = get_or b 0 0 * 16777216 + get_or b 1 0 * 65536 + get_or b 2 0 * 256 + get_or b 3 0

abbrev pub read_le32 : List ℕ → ℕ
read_le32 b = get_or b 0 0 + get_or b 1 0 * 256 + get_or b 2 0 * 65536 + get_or b 3 0 * 16777216

abbrev pub read_le16 : List ℕ → ℕ
read_le16 b = get_or b 0 0 + get_or b 1 0 * 256

-- `htonl`, `ntohl` and `htons`, `ntohs`
unfoldable pub swap32 : ℕ → ℕ
swap32 x = x % 256 * 16777216 + x / 256 % 256 * 65536 + x / 65536 % 256 * 256 + x / 16777216 % 256

unfoldable pub swap16 : ℕ → ℕ
swap16 x = x % 256 * 256 + x / 256 % 256

pub swap32-swap32 : (x : ℕ) → x < 2 ^ 32 → swap32 (swap32 x) ≡ x
unfolding swap32
swap32-swap32 x h = omega arith

pub read_be32-be32 : (x : ℕ) (rest : List ℕ) → x < 2 ^ 32 → read_be32 (be32 x ++ rest) ≡ x
unfolding be32 read_be32
read_be32-be32 x rest h = omega arith

pub length-be32 : (x : ℕ) → length (be32 x) ≡ 4
unfolding be32
length-be32 x = refl

pub read_le32-le32 : (x : ℕ) → x < 2 ^ 32 → read_le32 (le32 x) ≡ x
read_le32-le32 x h = omega arith

pub read_le16-le16 : (x : ℕ) → x < 2 ^ 16 → read_le16 (le16 x) ≡ x
read_le16-le16 x h = omega arith
