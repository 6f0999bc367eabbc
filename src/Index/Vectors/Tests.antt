-- ===== src/Index/Vectors/Tests.antt =====
-- The values 1.0 and 0.5 as bits, and the blob of them.
use rillan.Base.{◌≡◌, ◌≢◌, ◌↔◌, refl, arith, ℕ, ◌%◌, none, some, List, [], ◌∷◌, length}
use rillan.Index.Vectors.{put_uint32, encode_embedding, decode_embedding}
use rillan.Index.Vectors.Coding.{decode-encode}

abbrev values : List ℕ
values = 1065353216 ∷ 1056964608 ∷ []

abbrev blob : List ℕ
blob = 0 ∷ 0 ∷ 128 ∷ 63 ∷ 0 ∷ 0 ∷ 0 ∷ 63 ∷ []

encoded : encode_embedding values ≡ blob
unfolding encode_embedding put_uint32
encoded = refl

eight_bytes : length (encode_embedding values) ≡ 8
unfolding encode_embedding put_uint32
eight_bytes = refl

decode-encode_example :
    (decode_embedding (encode_embedding values) ≡ some values)
    × (decode_embedding blob ≡ some values → encode_embedding values ≡ blob)
    × ((decode_embedding blob ≡ none) ↔ (length blob % 4 ≢ 0))
decode-encode_example =
    decode-encode values blob (omega arith, (omega arith, tt))
      (
        omega arith,
        (
          omega arith,
          (
            omega arith,
            (omega arith, (omega arith, (omega arith, (omega arith, (omega arith, tt))))),
          ),
        ),
      )
