-- ===== src/Index/Vectors.antt =====
-- internal/index/vectors.go: embeddings as blobs. A float32 is its 32 bits, a number below 2^32,
-- as math.Float32bits and math.Float32frombits pass them on unchanged. The hash is the parameter
-- `sum`, whose bytes are those of SHA-256, and the division of a placeholder is `thousandths`.
pub mod Coding
mod Tests
use rillan.Base.{
  ℕ, zero, suc, ◌+◌, ◌*◌, ◌/◌, ◌%◌, ◌==◌, Bool, if◌then◌else◌, Option, none, some, List, [], ◌∷◌,
  ◌++◌, take, drop, length, Str,
}

-- `binary.LittleEndian.PutUint32`
unfoldable pub put_uint32 : ℕ → List ℕ
put_uint32 v = v % 256 ∷ v / 256 % 256 ∷ v / 65536 % 256 ∷ v / 16777216 % 256 ∷ []

-- `binary.LittleEndian.Uint32`
unfoldable pub uint32 : ℕ → ℕ → ℕ → ℕ → ℕ
uint32 a b c d = a + (b * 256 + (c * 65536 + d * 16777216))

unfoldable pub encode_embedding : List ℕ → List ℕ
unfolding put_uint32
encode_embedding [] = []
encode_embedding (value ∷ values) = put_uint32 value ++ encode_embedding values

unfoldable pub values_of : List ℕ → List ℕ
unfolding uint32
values_of (a ∷ b ∷ c ∷ d ∷ blob) = uint32 a b c d ∷ values_of blob
values_of _ = []

-- None for a length that 4 does not divide.
unfoldable pub decode_embedding : List ℕ → Option (List ℕ)
unfolding values_of
decode_embedding blob = if length blob % 4 == 0 then some (values_of blob) else none

-- The first `n` values of a placeholder.
unfoldable pub placeholder_from : (ℕ → ℕ) → ℕ → List ℕ → List ℕ
unfolding uint32
placeholder_from thousandths zero bytes = []
placeholder_from thousandths (suc n) (a ∷ b ∷ c ∷ d ∷ bytes) =
    thousandths (uint32 a b c d % 1000) ∷ placeholder_from thousandths n bytes
placeholder_from thousandths (suc n) _ = []

unfoldable pub placeholder_embedding : (Str → List ℕ) → (ℕ → ℕ) → Str → List ℕ
unfolding placeholder_from
placeholder_embedding sum thousandths text = placeholder_from thousandths 8 (sum text)
