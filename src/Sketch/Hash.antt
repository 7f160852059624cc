-- ===== src/Sketch/Hash.antt =====
-- `HashUtil::HashBytes` and `CombineHashes` of bustub/src/include/common/util/hash_util.h. A
-- `size_t` is a number below 2 ^ 64 and lies in memory as eight bytes, the lowest first.
use Prim.Native.Nat.{bit_xor}
use learning_journey.Base.{
  ℕ, zero, suc, ◌+◌, ◌-◌, ◌*◌, ◌/◌, ◌%◌, ◌^◌, List, [], ◌∷◌, ◌++◌, length, u64, ltb, if◌then◌else◌,
}

-- `static_cast<int8_t>(b)`, carried to 64 bits with its sign.
unfoldable pub sign_extend : ℕ → ℕ
sign_extend b = if ltb b 128 then b else 2 ^ 64 - 256 + b

-- The body of the loop.
unfoldable pub mix : ℕ → ℕ → ℕ
unfolding sign_extend
mix hash b = bit_xor (bit_xor (u64 (hash * 2 ^ 5)) (hash / 2 ^ 27)) (sign_extend b)

mix_all : ℕ → List ℕ → ℕ
mix_all hash [] = hash
mix_all hash (b ∷ bs) = mix_all (mix hash b) bs

unfoldable pub hash_bytes : List ℕ → ℕ
unfolding mix mix_all
hash_bytes bytes = mix_all (length bytes) bytes

-- The `n` lowest bytes of a word.
word_bytes : ℕ → ℕ → List ℕ
word_bytes zero w = []
word_bytes (suc n) w = w % 256 ∷ word_bytes n (w / 256)

unfoldable pub combine_hashes : ℕ → ℕ → ℕ
unfolding hash_bytes word_bytes
combine_hashes l r = hash_bytes (word_bytes 8 l ++ word_bytes 8 r)
