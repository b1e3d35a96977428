-- ===== src/Common/Bits.antt =====
-- `&`, `|` and shifts of words as arithmetic, at every width: a low mask is a remainder, and `|` of
-- fields that do not overlap is a sum.
use Prim.Native.Nat.{ℕ, zero, suc, ◌+◌, ◌-◌, ◌*◌, ◌/◌, ◌%◌, ◌^◌, ◌≤◌, ◌<◌, min, max}
use Prim.Native.Nat.{bit_and, bit_or, digits, bitwise, bit_and-bitwise, bit_or-bitwise}
use mathlib.Core.Path.{◌≡◌, refl, sym, ap, ◌∙◌}
use mathlib.Core.WellFounded
use native.Mathlib.Nat.{pow-suc, one-le-pow, mul-add-div_right, div-eq_of_lt}
use native.Mathlib.Nat.{mul-add-mod_self_right, mod-eq_of_lt, div-add-mod', mod-lt}
use native.Mathlib.Omega.{arith}
use Prim.Native.Nat.add
use jml_base.Common.Order.{lt_wf}

-- The native operations stand for a recursion on the binary digits of their first argument, with a
-- bound on its depth that does not show in the result.
module _ (rest : ℕ → ℕ) (digit : ℕ → ℕ → ℕ) where
  no_digits : (depth b : ℕ) → digits rest digit depth 0 b ≡ rest b
  no_digits zero b = refl
  no_digits (suc depth) b = refl

  any_depth : (n m b a : ℕ) → a ≤ min n m → digits rest digit n a b ≡ digits rest digit m a b
  any_depth n m b zero h = no_digits n b ∙ sym (no_digits m b)
  any_depth zero m b (suc a) h = absurd (omega arith)
  any_depth (suc n) zero b (suc a) h = absurd (omega arith)
  any_depth (suc n) (suc m) b (suc a) h =
      ap (λ (t : ℕ). t * 2 + digit (suc a % 2) (b % 2))
        (any_depth n m (b / 2) (suc a / 2) (omega arith))

  lowest_digit :
      (b a : ℕ)
      → bitwise rest digit (suc a) b
        ≡ bitwise rest digit (suc a / 2) (b / 2) * 2 + digit (suc a % 2) (b % 2)
  lowest_digit b a =
      ap (λ (t : ℕ). t * 2 + digit (suc a % 2) (b % 2))
        (any_depth a (suc a / 2) (b / 2) (suc a / 2) (omega arith))

pub bit_and_step : (x y : ℕ) → bit_and x y ≡ min (x % 2) (y % 2) + bit_and (x / 2) (y / 2) * 2
bit_and_step zero y = simp bit_and-bitwise (omega arith)
bit_and_step (suc x) y = simp bit_and-bitwise (omega (arith, lowest_digit (λ _. 0) min y x))

pub bit_or_step : (x y : ℕ) → bit_or x y ≡ max (x % 2) (y % 2) + bit_or (x / 2) (y / 2) * 2
bit_or_step zero y = simp bit_or-bitwise (omega arith)
bit_or_step (suc x) y = simp bit_or-bitwise (omega (arith, lowest_digit (λ d. d) max y x))

-- An operation that works digit by digit works field by field: the low `k` bits and the rest apart.
module _ (op f : ℕ → ℕ → ℕ) (step : (a b : ℕ) → op a b ≡ f (a % 2) (b % 2) + op (a / 2) (b / 2) * 2)
    (base : op 0 0 ≡ 0) where
  double : (q k : ℕ) → q * 2 ^ suc k ≡ 2 * (q * 2 ^ k)
  double q k = omega (arith, ap (λ (t : ℕ). q * t) (pow-suc 2 k))

  op_fields :
      (k q r q' r' : ℕ)
      → r < 2 ^ k
      → r' < 2 ^ k
      → op (q * 2 ^ k + r) (q' * 2 ^ k + r') ≡ op q q' * 2 ^ k + op r r'
  op_fields zero q r q' r' h h' = ground (arith, base)
  op_fields (suc k) q r q' r' h h' = ground (
    arith,
    step (q * 2 ^ suc k + r) (q' * 2 ^ suc k + r'),
    step r r',
    double q k,
    double q' k,
    double (op q q') k,
    pow-suc 2 k,
    op_fields k q (r / 2) q' (r' / 2),
  )

pub bit_and_fields :
    (k q r q' r' : ℕ)
    → r < 2 ^ k
    → r' < 2 ^ k
    → bit_and (q * 2 ^ k + r) (q' * 2 ^ k + r') ≡ bit_and q q' * 2 ^ k + bit_and r r'
bit_and_fields = op_fields bit_and min bit_and_step refl

pub bit_or_fields :
    (k q r q' r' : ℕ)
    → r < 2 ^ k
    → r' < 2 ^ k
    → bit_or (q * 2 ^ k + r) (q' * 2 ^ k + r') ≡ bit_or q q' * 2 ^ k + bit_or r r'
bit_or_fields = op_fields bit_or max bit_or_step refl

halving {ℓ} : (P : ℕ → Type ℓ) → P 0 → ((n : ℕ) → P (suc n / 2) → P (suc n)) → (a : ℕ) → P a
halving P base step a = WellFounded.induction lt_wf {C = P} a go
  where
    go : (n : ℕ) → ((m : ℕ) → m < n → P m) → P n
    go zero ih = base
    go (suc n) ih = step n (ih (suc n / 2) (omega arith))

pub bit_and-zero : (a : ℕ) → bit_and a 0 ≡ 0
bit_and-zero = halving (λ a. bit_and a 0 ≡ 0) refl (λ n ih. omega (arith, bit_and_step (suc n) 0))

pub zero-bit_and : (a : ℕ) → bit_and 0 a ≡ 0
zero-bit_and = halving (λ a. bit_and 0 a ≡ 0) refl (λ n ih. omega (arith, bit_and_step 0 (suc n)))

pub bit_or-zero : (a : ℕ) → bit_or a 0 ≡ a
bit_or-zero = halving (λ a. bit_or a 0 ≡ a) refl (λ n ih. omega (arith, bit_or_step (suc n) 0))

pub zero-bit_or : (a : ℕ) → bit_or 0 a ≡ a
zero-bit_or = halving (λ a. bit_or 0 a ≡ a) refl (λ n ih. omega (arith, bit_or_step 0 (suc n)))

-- A mask of `k` ones keeps a value of `k` bits whole, and cuts any other to its low bits.
bit_and_ones_lt : (k r : ℕ) → r < 2 ^ k → bit_and r (2 ^ k - 1) ≡ r
bit_and_ones_lt zero r h = ground (arith, bit_and-zero r)
bit_and_ones_lt (suc k) r h =
    ground (arith, bit_and_step r (2 ^ suc k - 1), pow-suc 2 k, bit_and_ones_lt k (r / 2))

pub bit_and_ones : (k a : ℕ) → bit_and a (2 ^ k - 1) ≡ a % 2 ^ k
bit_and_ones k a = ground (
  arith,
  one-le-pow k 2,
  bit_and_fields k (a / 2 ^ k) (a % 2 ^ k) 0 (2 ^ k - 1),
  bit_and-zero (a / 2 ^ k),
  bit_and_ones_lt k (a % 2 ^ k),
)

-- Two fields side by side.
pub bit_or_join : (k q r : ℕ) → r < 2 ^ k → bit_or (q * 2 ^ k) r ≡ q * 2 ^ k + r
bit_or_join k q r h =
    ground (arith, bit_or_fields k q 0 0 r, bit_or-zero q, zero-bit_or r, one-le-pow k 2)

pub bit_or_join_low : (k q r : ℕ) → r < 2 ^ k → bit_or r (q * 2 ^ k) ≡ q * 2 ^ k + r
bit_or_join_low k q r h =
    ground (arith, bit_or_fields k 0 r q 0, zero-bit_or q, bit_or-zero r, one-le-pow k 2)

pub pow-add : (a b : ℕ) → 2 ^ (a + b) ≡ 2 ^ a * 2 ^ b
pow-add zero b = omega (arith, ap (λ (t : ℕ). 2 ^ t) (add.zero b))
pow-add (suc a) b = omega (
  arith,
  ap (λ (t : ℕ). 2 ^ t) (add.suc a b),
  pow-suc 2 (a + b),
  ap (λ (t : ℕ). t * 2 ^ b) (pow-suc 2 a),
  ap (λ (t : ℕ). 2 * t) (pow-add a b),
)

pub pow_pos : (k : ℕ) → 0 < 2 ^ k
pow_pos k = one-le-pow k 2 (omega arith)

pub split_pow : (a w : ℕ) → a ≤ w → 2 ^ w ≡ 2 ^ a * 2 ^ (w - a)
split_pow a w h = ap (λ (t : ℕ). 2 ^ t) {x = w} {y = a + (w - a)} (omega arith) ∙ pow-add a (w - a)

-- A quotient and a remainder are determined by the number that they make up.
pub div-join : (q r m : ℕ) → r < m → (q * m + r) / m ≡ q
div-join q r m h =
    omega (arith, mul-add-div_right {m = m} (omega arith) q r, div-eq_of_lt {n = r} {m = m} h)

pub mod-join : (q r m : ℕ) → r < m → (q * m + r) % m ≡ r
mod-join q r m h = mul-add-mod_self_right q m r ∙ mod-eq_of_lt h

pub mul-mod-mul : (a b k : ℕ) → 0 < b → 0 < k → a * k % (b * k) ≡ a % b * k
mul-mod-mul a b k hb hk =
    ap (λ (t : ℕ). t % (b * k)) {x = a * k} {y = a / b * (b * k) + a % b * k}
      (omega (arith, ap (λ (t : ℕ). t * k) (div-add-mod' a b)))
    ∙ mod-join (a / b) (a % b * k) (b * k) (grind (arith, mod-lt a hb))
