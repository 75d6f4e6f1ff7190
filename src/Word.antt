-- ===== src/Word.antt =====
-- Machine words in memory, and detail::host_to_network64 and detail::network_to_host64 of
-- include/spraybus/networking/protocol.hpp. A word is a number below 256 ^ width; the byte order of
-- the host is an argument, so that hosts of both orders are covered.
pub mod Laws
use spraybus.Prelude.{ℕ, zero, suc, ◌+◌, ◌*◌, ◌/◌, ◌%◌, ◌<◌, ◌≡◌, List, [], ◌∷◌, reverse}

pub data Endian : Type 0 where
  little big : Endian

abbrev pub IsByte : ℕ → Type 0
IsByte b = b < 256

-- The low `w` bytes of a number, least significant first.
unfoldable pub le_bytes : ℕ → ℕ → List ℕ
le_bytes zero x = []
le_bytes (suc w) x = (x % 256) ∷ le_bytes w (x / 256)

unfoldable pub of_le : List ℕ → ℕ
of_le [] = 0
of_le (b ∷ bs) = b + 256 * of_le bs

-- The bytes of a word of width `w` as they lie in the memory of a host, and the word read back.
unfoldable pub store : Endian → ℕ → ℕ → List ℕ
unfolding le_bytes
store little w x = le_bytes w x
store big w x = reverse (le_bytes w x)

unfoldable pub load : Endian → List ℕ → ℕ
unfolding of_le
load little bs = of_le bs
load big bs = of_le (reverse bs)

-- std::byteswap on a word of `w` bytes.
unfoldable pub byteswap : ℕ → ℕ → ℕ
unfolding le_bytes of_le
byteswap w x = of_le (reverse (le_bytes w x))

unfoldable pub host_to_network64 : Endian → ℕ → ℕ
host_to_network64 little x = byteswap 8 x
host_to_network64 big x = x

unfoldable pub network_to_host64 : Endian → ℕ → ℕ
network_to_host64 e x = host_to_network64 e x

-- `x` fits in `w` bytes.
abbrev pub Fits : ℕ → ℕ → Type 0
Fits zero x = x ≡ 0
Fits (suc w) x = Fits w (x / 256)
