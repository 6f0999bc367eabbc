-- ===== src/Index/Vectors/Coding.antt =====
-- The laws of `EncodeEmbedding` and `DecodeEmbedding`.
use rillan.Base.{
  ◌≡◌, ◌≢◌, ◌↔◌, inl, inr, Bool-cases, refl, ℕ, ◌*◌, ◌/◌, ◌%◌, ◌<◌, ◌==◌, none, some, List, [], ◌∷◌,
  length, All, arith,
}
use rillan.Index.Vectors.{put_uint32, uint32, encode_embedding, values_of, decode_embedding}

uint32-put :
    (v : ℕ)
    → v < 4294967296
    → uint32 (v % 256) (v / 256 % 256) (v / 65536 % 256) (v / 16777216 % 256) ≡ v
unfolding uint32
uint32-put v bound = omega arith

put-uint32 :
    (a b c d : ℕ)
    → a < 256
    → b < 256
    → c < 256
    → d < 256
    → (uint32 a b c d % 256 ≡ a)
      × (uint32 a b c d / 256 % 256 ≡ b)
      × (uint32 a b c d / 65536 % 256 ≡ c)
      × (uint32 a b c d / 16777216 % 256 ≡ d)
unfolding uint32
put-uint32 a b c d p q r s = (omega arith, omega arith, omega arith, omega arith)

length-encode : (values : List ℕ) → length (encode_embedding values) ≡ 4 * length values
unfolding encode_embedding put_uint32
length-encode [] = omega arith
length-encode (value ∷ values) = omega (arith, length-encode values)

values-encode :
    (values : List ℕ)
    → All (λ v. v < 4294967296) values
    → values_of (encode_embedding values) ≡ values
unfolding encode_embedding put_uint32 values_of
values-encode [] bounds = refl
values-encode (value ∷ values) bounds =
    rw (uint32-put value bounds.0, values-encode values bounds.1) refl

encode-values :
    (blob : List ℕ)
    → All (λ b. b < 256) blob
    → length blob % 4 ≡ 0
    → encode_embedding (values_of blob) ≡ blob
unfolding encode_embedding put_uint32 values_of
encode-values [] bytes whole = refl
encode-values (a ∷ []) bytes whole = absurd (omega arith)
encode-values (a ∷ b ∷ []) bytes whole = absurd (omega arith)
encode-values (a ∷ b ∷ c ∷ []) bytes whole = absurd (omega arith)
encode-values (a ∷ b ∷ c ∷ d ∷ blob) bytes whole =
    let (p, q, r, s) = put-uint32 a b c d (omega arith) (omega arith) (omega arith) (omega arith) in
    rw (p, q, r, s, encode-values blob bytes.1.1.1.1 (omega arith)) refl

of_decoded :
    (values blob : List ℕ)
    → All (λ b. b < 256) blob
    → decode_embedding blob ≡ some values
    → encode_embedding values ≡ blob
unfolding decode_embedding
of_decoded values blob bytes e = elim (Bool-cases (length blob % 4 == 0)) [
  | inl whole ↦
      let same : values_of blob ≡ values = ground (arith, e, whole) in
      rw (← same) (encode-values blob bytes (ground (arith, whole)))
  | inr ragged ↦ absurd (ground (arith, e, ragged))
]

-- Values of 32 bits are encoded to a blob that is decoded to them, and a blob of bytes that is
-- decoded to some values is the one that they are encoded to; a blob is not decoded exactly if 4
-- does not divide its length.
pub decode-encode :
    (values blob : List ℕ)
    → All (λ v. v < 4294967296) values
    → All (λ b. b < 256) blob
    → (decode_embedding (encode_embedding values) ≡ some values)
      × (decode_embedding blob ≡ some values → encode_embedding values ≡ blob)
      × ((decode_embedding blob ≡ none) ↔ (length blob % 4 ≢ 0))
unfolding decode_embedding
decode-encode values blob bounds bytes = (
  ground (arith, length-encode values, values-encode values bounds),
  λ e. of_decoded values blob bytes e,
  ground arith,
)
