-- ===== src/Compact/Bytes.antt =====
-- The packing loop and the loop over the bytes, as arithmetic.
use Prim.Native.Nat.{bit_or}
use native.Mathlib.Nat.{div-div-eq-div-mul, div-add-mod', pow-suc, one-le-pow, mod-lt}
use jml_base.Common.{
  ℕ, zero, suc, ◌+◌, ◌*◌, ◌/◌, ◌%◌, ◌^◌, ◌<◌, ◌≡◌, refl, ap, ap₂, ◌∙◌, arith, List, [], ◌∷◌, ◌++◌,
  length,
}
use jml_base.Common.Bits.{bit_and_ones, bit_or_join, mod-join}
use jml_base.Compact.{pack, unpack}

-- The `n` lowest bytes of `v`, highest first.
unfoldable pub big_endian : ℕ → ℕ → List ℕ
big_endian zero v = []
big_endian (suc n) v = (v / 256 ^ n % 256) ∷ big_endian n v

pub length-big_endian : (n v : ℕ) → length (big_endian n v) ≡ n
unfolding big_endian
length-big_endian zero v = refl
length-big_endian (suc n) v = ap suc (length-big_endian n v)

snoc_big_endian :
    (n v : ℕ) (buf : List ℕ)
    → big_endian n (v / 256) ++ ((v % 256) ∷ buf) ≡ big_endian (suc n) v ++ buf
unfolding big_endian
snoc_big_endian zero v buf = ap (λ (t : ℕ). (t % 256) ∷ buf) (omega arith)
snoc_big_endian (suc n) v buf =
    ap₂ (λ (t : ℕ) (l : List ℕ). (t % 256) ∷ l)
      (div-div-eq-div-mul v 256 (256 ^ n) ∙ ap (λ (t : ℕ). v / t) (omega (arith, pow-suc 256 n)))
      (snoc_big_endian n v buf)

pub pack-big_endian : (n v : ℕ) (buf : List ℕ) → pack n v buf ≡ big_endian n v ++ buf
unfolding pack
pack-big_endian zero v buf = unfold big_endian in refl
pack-big_endian (suc n) v buf =
    rw (bit_and_ones 8 v) (pack-big_endian n (v / 256) ((v % 256) ∷ buf)) ∙ snoc_big_endian n v buf

-- The number that bytes make up behind `acc`.
unfoldable pub number : ℕ → List ℕ → ℕ
number acc [] = acc
number acc (b ∷ bytes) = number (acc * 256 + b) bytes

abbrev pub IsBytes : List ℕ → Type 0
IsBytes [] = Unit
IsBytes (b ∷ bytes) = (b < 256) × IsBytes bytes

pub big_endian-IsBytes : (n v : ℕ) → IsBytes (big_endian n v)
unfolding big_endian
big_endian-IsBytes zero v = tt
big_endian-IsBytes (suc n) v = (omega arith, big_endian-IsBytes n v)

pub number-big_endian : (acc n v : ℕ) → number acc (big_endian n v) ≡ acc * 256 ^ n + v % 256 ^ n
unfolding number big_endian
number-big_endian acc zero v = omega arith
number-big_endian acc (suc n) v =
    let q = v / 256 ^ n in
    let low = v % 256 ^ n in
    let place : 0 < 256 ^ n = one-le-pow n 256 (omega arith) in
    let small : q % 256 * 256 ^ n + low < 256 ^ suc n =
      grind (arith, pow-suc 256 n, mod-lt v place) in
    let whole : v ≡ q / 256 * 256 ^ suc n + (q % 256 * 256 ^ n + low) = omega (
      arith,
      div-add-mod' v (256 ^ n),
      ap (λ (t : ℕ). t * 256 ^ n) (div-add-mod' q 256),
      ap (λ (t : ℕ). q / 256 * t) (pow-suc 256 n),
    ) in
    let rest : v % 256 ^ suc n ≡ q % 256 * 256 ^ n + low =
      ap (λ (t : ℕ). t % 256 ^ suc n) whole
      ∙ mod-join (q / 256) (q % 256 * 256 ^ n + low) (256 ^ suc n) small in
    number-big_endian (acc * 256 + q % 256) n v
    ∙ omega (arith, rest, ap (λ (t : ℕ). acc * t) (pow-suc 256 n))

number-congr :
    (a b : ℕ) (bytes : List ℕ)
    → a % 2 ^ 64 ≡ b % 2 ^ 64
    → number a bytes % 2 ^ 64 ≡ number b bytes % 2 ^ 64
unfolding number
number-congr a b [] e = e
number-congr a b (c ∷ bytes) e = number-congr (a * 256 + c) (b * 256 + c) bytes (omega arith)

-- The loop keeps the lowest 64 bits of the number that the bytes make up.
pub unpack-number :
    (acc : ℕ) (bytes : List ℕ)
    → acc < 2 ^ 64
    → IsBytes bytes
    → unpack acc bytes ≡ number acc bytes % 2 ^ 64
unfolding unpack number
unpack-number acc [] h hb = omega arith
unpack-number acc (b ∷ bytes) h hb =
    let joined : bit_or (acc * 2 ^ 8 % 2 ^ 64) b ≡ acc % 2 ^ 56 * 256 + b =
      ap (λ (t : ℕ). bit_or t b) {y = acc % 2 ^ 56 * 2 ^ 8} (omega arith)
      ∙ bit_or_join 8 (acc % 2 ^ 56) b hb.0 in
    rw joined (
      unpack-number (acc % 2 ^ 56 * 256 + b) bytes (omega arith) hb.1
      ∙ number-congr (acc % 2 ^ 56 * 256 + b) (acc * 256 + b) bytes (omega arith))
