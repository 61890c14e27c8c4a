-- ===== src/Scan/Sha256.antt =====
-- packages/shared/src/diff.ts, `sha256hex`: SHA-256 of a text in hexadecimal. A word is a number below
-- 2 ^ 32, and `>>> 0` is the remainder. What JavaScript keeps as a signed word between two such
-- conversions differs from the model by a multiple of 2 ^ 32.
use Prim.Native.Nat.{bit_and, bit_or, bit_xor}
use Prim.Native.Char.{Char, code}
use scan_pal.Common.{
  ℕ, zero, suc, ◌+◌, ◌-◌, ◌*◌, ◌/◌, ◌%◌, ◌^◌, ◌≤◌, ◌<◌, ◌≡◌, refl, arith, List, [], ◌∷◌, ◌++◌,
  String, ltb, ◌==◌, if◌then◌else◌, length, length-append,
}
use mathlib.Core.List.{reverse}

abbrev pub word_mod : ℕ
word_mod = 2 ^ 32

abbrev pub codes : String → List ℕ
codes String.[] = []
codes (String.◌∷◌ c s) = code c ∷ codes s

-- `new TextEncoder().encode(input)`: UTF-8.
abbrev encode_code : ℕ → List ℕ
encode_code c =
    if ltb c 0x80
    then c ∷ []
    else (if ltb c 0x800
        then (0xc0 + c / 64) ∷ (0x80 + c % 64) ∷ []
        else (if ltb c 0x10000
            then (0xe0 + c / 4096) ∷ (0x80 + c / 64 % 64) ∷ (0x80 + c % 64) ∷ []
            else (0xf0 + c / 262144)
              ∷ (0x80 + c / 4096 % 64)
              ∷ (0x80 + c / 64 % 64)
              ∷ (0x80 + c % 64)
              ∷ []))

encode_codes : List ℕ → List ℕ
encode_codes [] = []
encode_codes (c ∷ cs) = encode_code c ++ encode_codes cs

replicate : ℕ → ℕ → List ℕ
replicate zero x = []
replicate (suc n) x = x ∷ replicate n x

-- `view.setUint32(at, word, false)`.
abbrev bytes_of_word : ℕ → List ℕ
bytes_of_word w = w / 2 ^ 24 % 256 ∷ w / 2 ^ 16 % 256 ∷ w / 2 ^ 8 % 256 ∷ w % 256 ∷ []

-- `(((bytes.length + 8) >> 6) + 1) << 6`.
abbrev padded_length : ℕ → ℕ
padded_length n = ((n + 8) / 64 + 1) * 64

pad : List ℕ → List ℕ
unfolding replicate
pad bytes =
    let n = length bytes in
    bytes
    ++ (0x80
        ∷ (replicate (padded_length n - n - 9) 0
            ++ (bytes_of_word (n * 8 / word_mod % word_mod) ++ bytes_of_word (n * 8 % word_mod))))

sha256_k : List ℕ
sha256_k =
    0x428a2f98 ∷ 0x71374491 ∷ 0xb5c0fbcf ∷ 0xe9b5dba5 ∷ 0x3956c25b ∷ 0x59f111f1 ∷ 0x923f82a4
    ∷ 0xab1c5ed5 ∷ 0xd807aa98 ∷ 0x12835b01 ∷ 0x243185be ∷ 0x550c7dc3 ∷ 0x72be5d74 ∷ 0x80deb1fe
    ∷ 0x9bdc06a7 ∷ 0xc19bf174 ∷ 0xe49b69c1 ∷ 0xefbe4786 ∷ 0x0fc19dc6 ∷ 0x240ca1cc ∷ 0x2de92c6f
    ∷ 0x4a7484aa ∷ 0x5cb0a9dc ∷ 0x76f988da ∷ 0x983e5152 ∷ 0xa831c66d ∷ 0xb00327c8 ∷ 0xbf597fc7
    ∷ 0xc6e00bf3 ∷ 0xd5a79147 ∷ 0x06ca6351 ∷ 0x14292967 ∷ 0x27b70a85 ∷ 0x2e1b2138 ∷ 0x4d2c6dfc
    ∷ 0x53380d13 ∷ 0x650a7354 ∷ 0x766a0abb ∷ 0x81c2c92e ∷ 0x92722c85 ∷ 0xa2bfe8a1 ∷ 0xa81a664b
    ∷ 0xc24b8b70 ∷ 0xc76c51a3 ∷ 0xd192e819 ∷ 0xd6990624 ∷ 0xf40e3585 ∷ 0x106aa070 ∷ 0x19a4c116
    ∷ 0x1e376c08 ∷ 0x2748774c ∷ 0x34b0bcb5 ∷ 0x391c0cb3 ∷ 0x4ed8aa4a ∷ 0x5b9cca4f ∷ 0x682e6ff3
    ∷ 0x748f82ee ∷ 0x78a5636f ∷ 0x84c87814 ∷ 0x8cc70208 ∷ 0x90befffa ∷ 0xa4506ceb ∷ 0xbef9a3f7
    ∷ 0xc67178f2 ∷ []

abbrev shift_right : ℕ → ℕ → ℕ
shift_right v s = v / 2 ^ s

rotr : ℕ → ℕ → ℕ
rotr v s = bit_or (v / 2 ^ s) (v * 2 ^ (32 - s) % word_mod)

abbrev xor3 : ℕ → ℕ → ℕ → ℕ
xor3 a b c = bit_xor (bit_xor a b) c

-- `w[j - 1 - i]`, in the words so far with the latest first.
back : List ℕ → ℕ → ℕ
back [] i = 0
back (w ∷ ws) zero = w
back (w ∷ ws) (suc i) = back ws i

next_word : List ℕ → ℕ
unfolding rotr back
next_word ws =
    let s0 = xor3 (rotr (back ws 14) 7) (rotr (back ws 14) 18) (shift_right (back ws 14) 3) in
    let s1 = xor3 (rotr (back ws 1) 17) (rotr (back ws 1) 19) (shift_right (back ws 1) 10) in
    (back ws 15 + s0 + back ws 6 + s1) % word_mod

-- The loop from 16 to 64, with the rounds left.
extend : ℕ → List ℕ → List ℕ
extend zero ws = ws
extend (suc n) ws = extend n (next_word ws ∷ ws)

pub record Registers : Type 0 where
  pub a : ℕ
  pub b : ℕ
  pub c : ℕ
  pub d : ℕ
  pub e : ℕ
  pub f : ℕ
  pub g : ℕ
  pub h : ℕ

initial : Registers
initial = record {
  a = 0x6a09e667;
  b = 0xbb67ae85;
  c = 0x3c6ef372;
  d = 0xa54ff53a;
  e = 0x510e527f;
  f = 0x9b05688c;
  g = 0x1f83d9ab;
  h = 0x5be0cd19;
}

-- One turn of the loop over `j`.
turn : (k w : ℕ) → Registers → Registers
unfolding rotr
turn k w r =
    let s1 = xor3 (rotr r.e 6) (rotr r.e 11) (rotr r.e 25) in
    let ch = bit_xor (bit_and r.e r.f) (bit_and (word_mod - 1 - r.e) r.g) in
    let temp1 = (r.h + s1 + ch + k + w) % word_mod in
    let s0 = xor3 (rotr r.a 2) (rotr r.a 13) (rotr r.a 22) in
    let maj = xor3 (bit_and r.a r.b) (bit_and r.a r.c) (bit_and r.b r.c) in
    let temp2 = (s0 + maj) % word_mod in
    record {
      a = (temp1 + temp2) % word_mod;
      b = r.a;
      c = r.b;
      d = r.c;
      e = (r.d + temp1) % word_mod;
      f = r.e;
      g = r.f;
      h = r.g;
    }

turns : (ks ws : List ℕ) → Registers → Registers
turns [] ws r = r
turns (k ∷ ks) [] r = r
turns (k ∷ ks) (w ∷ ws) r = turns ks ws (turn k w r)

abbrev add_registers : Registers → Registers → Registers
add_registers r s = record {
  a = (r.a + s.a) % word_mod;
  b = (r.b + s.b) % word_mod;
  c = (r.c + s.c) % word_mod;
  d = (r.d + s.d) % word_mod;
  e = (r.e + s.e) % word_mod;
  f = (r.f + s.f) % word_mod;
  g = (r.g + s.g) % word_mod;
  h = (r.h + s.h) % word_mod;
}

-- A block of 16 words, the first one first.
block : List ℕ → Registers → Registers
unfolding turns extend sha256_k
block ws r = add_registers r (turns sha256_k (reverse (extend 48 (reverse ws))) r)

-- `view.getUint32`, over the whole buffer.
words_of : List ℕ → List ℕ
words_of (p ∷ q ∷ r ∷ s ∷ bytes) = (p * 2 ^ 24 + q * 2 ^ 16 + r * 2 ^ 8 + s) ∷ words_of bytes
words_of _ = []

-- The loop over the blocks: `i` counts the words until the block is full.
blocks : (left : ℕ) → (current words : List ℕ) → Registers → Registers
blocks left current [] r = r
blocks zero current (w ∷ ws) r = blocks 15 (w ∷ []) ws r
blocks (suc zero) current (w ∷ ws) r = blocks 16 [] ws (block (reverse (w ∷ current)) r)
blocks (suc (suc n)) current (w ∷ ws) r = blocks (suc n) (w ∷ current) ws r

digest : List ℕ → Registers
unfolding pad words_of blocks initial block
digest bytes = blocks 16 [] (words_of (pad bytes)) initial

-- `value.toString(16)`: the digits of a number below 16 ^ (fuel + 1).
to_base16 : ℕ → ℕ → List ℕ
to_base16 zero v = v % 16 ∷ []
to_base16 (suc n) v =
    let rest = to_base16 n (v / 16) in if ltb v 16 then v ∷ [] else rest ++ v % 16 ∷ []

-- `.padStart(8, "0")`.
to_hex : ℕ → List ℕ
unfolding to_base16 replicate
to_hex v = let digits = to_base16 7 v in replicate (8 - length digits) 0 ++ digits

hex_digits : Registers → List ℕ
hex_digits r =
    to_hex r.a
    ++ (to_hex r.b
        ++ (to_hex r.c
            ++ (to_hex r.d ++ (to_hex r.e ++ (to_hex r.f ++ (to_hex r.g ++ to_hex r.h))))))

abbrev digit_char : ℕ → Char
digit_char d =
    if d == 0
    then "0"
    else if d == 1
    then "1"
    else if d == 2
    then "2"
    else if d == 3
    then "3"
    else if d == 4
    then "4"
    else if d == 5
    then "5"
    else if d == 6
    then "6"
    else if d == 7
    then "7"
    else if d == 8
    then "8"
    else if d == 9
    then "9"
    else if d == 10
    then "a"
    else if d == 11
    then "b"
    else if d == 12
    then "c"
    else if d == 13
    then "d"
    else if d == 14
    then "e"
    else "f"

text_of : List ℕ → String
text_of [] = ""
text_of (d ∷ ds) = String.◌∷◌ (digit_char d) (text_of ds)

unfoldable pub sha256hex : String → String
unfolding text_of to_hex hex_digits digest encode_codes turn next_word
sha256hex input = text_of (hex_digits (digest (encode_codes (codes input))))

to_base16-length : (n v : ℕ) → (0 < length (to_base16 n v)) × (length (to_base16 n v) ≤ suc n)
unfolding to_base16
to_base16-length zero v = omega arith
to_base16-length (suc n) v =
    ground (arith, to_base16-length n (v / 16), length-append (to_base16 n (v / 16)) (v % 16 ∷ []))

length-replicate : (n x : ℕ) → length (replicate n x) ≡ n
unfolding replicate
length-replicate zero x = refl
length-replicate (suc n) x = omega (arith, length-replicate n x)

to_hex-length : (v : ℕ) → length (to_hex v) ≡ 8
unfolding to_hex
to_hex-length v = omega (
  arith,
  to_base16-length 7 v,
  length-append (replicate (8 - length (to_base16 7 v)) 0) (to_base16 7 v),
  length-replicate (8 - length (to_base16 7 v)) 0,
)

text_of-length : (ds : List ℕ) → length (codes (text_of ds)) ≡ length ds
unfolding text_of
text_of-length [] = refl
text_of-length (d ∷ ds) = omega (arith, text_of-length ds)

hex_digits-length : (r : Registers) → length (hex_digits r) ≡ 64
unfolding hex_digits
hex_digits-length r = simp (length-append, to_hex-length) (omega arith)

-- A fingerprint's hash has 64 digits, whatever the text.
pub sha256hex-length : (input : String) → length (codes (sha256hex input)) ≡ 64
unfolding sha256hex
sha256hex-length input =
    let r = digest (encode_codes (codes input)) in
    omega (arith, text_of-length (hex_digits r), hex_digits-length r)

-- The digest of "abc" in the standard.
sha256hex_abc : sha256hex "abc" ≡ "ba7816bf8f01cfea414140de5dae2223b00361a396177a9cb410ff61f20015ad"
unfolding sha256hex
sha256hex_abc = refl
