-- ===== src/Webhook/Guard/Ranges.antt =====
-- Which addresses `isBlockedIp` blocks, as networks of 32-bit numbers.
use Prim.Native.Nat.{bit_and}
use mathlib.Core.Option.{Option, none, some}
use scan_pal.Common.{
  if◌then◌else◌, ℕ, zero, suc, ◌+◌, ◌*◌, ◌/◌, ◌%◌, ◌^◌, ◌<◌, ◌≡◌, ◌↔◌, refl, Bool, true, arith,
  ◌==◌, ◌⊎◌, ==_iff,
}
use scan_pal.Webhook.Guard.{is_blocked_v4, is_blocked_ip, v4, v6, Groups}

-- The 32-bit number of the IPv4 address `a.b.c.d`.
abbrev pub number_of : (a b c d : ℕ) → ℕ
number_of a b c d = a * 2 ^ 24 + b * 2 ^ 16 + c * 2 ^ 8 + d

-- `number / len` is the network `net` of prefix length 32 - log2 len.
abbrev pub InBlock : (number size net : ℕ) → Type 0
InBlock number size net = number / size ≡ net

-- The networks that the source's comments name.
abbrev pub IsPrivateV4 : ℕ → Type 0
IsPrivateV4 n =
    InBlock n (2 ^ 24) 0
    ⊎ InBlock n (2 ^ 24) 10
    ⊎ InBlock n (2 ^ 22) (100 * 4 + 1)
    ⊎ InBlock n (2 ^ 24) 127
    ⊎ InBlock n (2 ^ 16) (169 * 256 + 254)
    ⊎ InBlock n (2 ^ 20) (172 * 16 + 1)
    ⊎ InBlock n (2 ^ 16) (192 * 256 + 168)

-- The largest number below a bound at which a test fails.
last_failure : (ℕ → Bool) → ℕ → Option ℕ
last_failure test zero = none
last_failure test (suc bound) = if test bound then last_failure test bound else some bound

passes_below :
    (test : ℕ → Bool) (bound b : ℕ) → last_failure test bound ≡ none → b < bound → test b ≡ true
unfolding last_failure
passes_below test zero b ok small = elim small [ ]
passes_below test (suc bound) b ok small = ground (arith, passes_below test bound b)

-- The mask of the source keeps the four high bits of a byte.
high_nibble : (b : ℕ) → b < 256 → bit_and b 0xf0 ≡ b / 16 * 16
high_nibble b small =
    (==_iff _ _).0
      (passes_below (λ n. bit_and n 0xf0 == n / 16 * 16) 256 b (unfold last_failure in refl) small)

-- The prefixes of an address, from its first two numbers.
prefixes :
    (a b c d : ℕ)
    → b < 256
    → c < 256
    → d < 256
    → (number_of a b c d / 2 ^ 24 ≡ a)
      × (number_of a b c d / 2 ^ 22 ≡ a * 4 + b / 64)
      × (number_of a b c d / 2 ^ 20 ≡ a * 16 + b / 16)
      × (number_of a b c d / 2 ^ 16 ≡ a * 256 + b)
prefixes a b c d hb hc hd = (omega arith, omega arith, omega arith, omega arith)

blocked_of_parts :
    (a b : ℕ)
    → b < 256
    → (is_blocked_v4 a b ≡ true) ↔ (
        (a ≡ 0)
        ⊎ (a ≡ 10)
        ⊎ (a * 4 + b / 64 ≡ 401)
        ⊎ (a ≡ 127)
        ⊎ (a * 256 + b ≡ 43518)
        ⊎ (a * 16 + b / 16 ≡ 2753)
        ⊎ (a * 256 + b ≡ 49320))
unfolding is_blocked_v4
blocked_of_parts a b hb = rw (high_nibble b hb) (ground arith)

-- An IPv4 address is blocked exactly when its 32-bit number lies in one of the seven networks
-- 0.0.0.0/8, 10.0.0.0/8, 100.64.0.0/10, 127.0.0.0/8, 169.254.0.0/16, 172.16.0.0/12 and
-- 192.168.0.0/16.
pub is_blocked_ip-v4 :
    (a b c d : ℕ)
    → a < 256
    → b < 256
    → c < 256
    → d < 256
    → (is_blocked_ip (v4 a b) ≡ true) ↔ IsPrivateV4 (number_of a b c d)
unfolding is_blocked_ip
is_blocked_ip-v4 a b c d ha hb hc hd =
    let (p24, p22, p20, p16) = prefixes a b c d hb hc hd in
    rw (p24, p22, p20, p16) (blocked_of_parts a b hb)

-- The groups of the IPv4-mapped address `::ffff:a.b.c.d`.
abbrev pub mapped : (a b c d : ℕ) → Groups
mapped a b c d = record {
  g0 = 0;
  g1 = 0;
  g2 = 0;
  g3 = 0;
  g4 = 0;
  g5 = 0xffff;
  g6 = a * 256 + b;
  g7 = c * 256 + d;
}

-- An IPv4-mapped IPv6 address is blocked exactly when the IPv4 address is.
pub is_blocked_ip-mapped :
    (a b c d : ℕ) → b < 256 → is_blocked_ip (v6 (mapped a b c d)) ≡ is_blocked_ip (v4 a b)
unfolding is_blocked_ip
is_blocked_ip-mapped a b c d hb =
    let e : (a * 256 + b) / 256 ≡ a = omega arith in
    let f : (a * 256 + b) % 256 ≡ b = omega arith in rw (e, f) refl
