-- ===== src/Convert/Vector.antt =====
-- VECTOR values of go/mariadb.go, sent to the server and read back.
use adbc_driver_mariadb.Base.{
  ℕ, ◌*◌, ◌/◌, ◌%◌, ◌<◌, ◌≡◌, refl, ap, true, List, [], ◌∷◌, length, take, drop, arith, ◌==◌,
}
use adbc_driver_mariadb.Base.Result.{ok}
use adbc_driver_mariadb.Convert.Inserter.{
  Builder, append_cell, floats_cell, le_word, decode_words, encode_words, vector_bytes,
  insert_vector,
}

-- Bit patterns of 32 bits.
unfoldable pub Words : List ℕ → Type 0
Words [] = Unit
Words (w ∷ ws) = (w < 4_294_967_296) × Words ws

le_word-bytes :
    (w : ℕ)
    → w < 4_294_967_296
    → le_word (w % 256) (w / 256 % 256) (w / 65_536 % 256) (w / 16_777_216 % 256) ≡ w
le_word-bytes w h = omega arith

decode_words-encode_words : (ws : List ℕ) → Words ws → decode_words (encode_words ws) ≡ ws
unfolding Words decode_words encode_words
decode_words-encode_words [] h = refl
decode_words-encode_words (w ∷ ws) h =
    rw (le_word-bytes w h.0) (ap (λ l. w ∷ l) (decode_words-encode_words ws h.1))

length-encode_words : (ws : List ℕ) → length (encode_words ws) ≡ length ws * 4
unfolding encode_words
length-encode_words [] = refl
length-encode_words (w ∷ ws) = omega (arith, length-encode_words ws)

insert_vector-encode_words :
    (dimension : ℕ) (ws : List ℕ) (b : Builder)
    → Words ws
    → length ws ≡ dimension
    → insert_vector dimension (encode_words ws) b ≡ ok (append_cell b (floats_cell ws))
unfolding insert_vector
insert_vector-encode_words dimension ws b w h =
    let fits : (length (encode_words ws) == dimension * 4) ≡ true =
      ground (arith, length-encode_words ws) in
    rw (fits, insert_vector) (rw (decode_words-encode_words ws w))

-- The bytes that are sent for the row at `index` of a VECTOR column are read back as the same bit
-- patterns, where the column has all the row's elements.
pub insert_vector-vector_bytes :
    (dimension index : ℕ) (values : List ℕ) (b : Builder)
    → let row = take dimension (drop (index * dimension) values) in
      Words row
      → length row ≡ dimension
      → insert_vector dimension (vector_bytes dimension index values) b
        ≡ ok (append_cell b (floats_cell row))
unfolding vector_bytes
insert_vector-vector_bytes dimension index values b w h =
    insert_vector-encode_words dimension (take dimension (drop (index * dimension) values)) b w h
