-- ===== src/BitRange/Numbers.antt =====
-- Fields of a number: reading one, replacing one, and how two of them meet.
use native.Mathlib.Nat.{div-div-eq-div-mul, div-add-mod', mod-lt, div-lt_iff_lt-mul}
use jml_base.Common.{ℕ, ◌+◌, ◌-◌, ◌*◌, ◌/◌, ◌%◌, ◌^◌, ◌≤◌, ◌<◌, ◌≡◌, sym, ap, ◌∙◌, arith}
use jml_base.Common.Bits.{pow_pos, pow-add, split_pow, div-join, mod-join}

-- A field of `n` bits above `a` others, with `hi` above both.
abbrev pub fields : ℕ → ℕ → ℕ → ℕ → ℕ → ℕ
fields a n hi mid lo = hi * 2 ^ (a + n) + (mid * 2 ^ a + lo)

-- The field of `n` bits above the lowest `a` bits of a number, and the number with it replaced.
abbrev pub field : ℕ → ℕ → ℕ → ℕ
field a n x = x / 2 ^ a % 2 ^ n

abbrev pub replaced : ℕ → ℕ → ℕ → ℕ → ℕ
replaced a n v x = fields a n (x / 2 ^ (a + n)) v (x % 2 ^ a)

pub middle-lt : (a n mid lo : ℕ) → mid < 2 ^ n → lo < 2 ^ a → mid * 2 ^ a + lo < 2 ^ (a + n)
middle-lt a n mid lo hm hl = grind (arith, pow-add a n)

pub fields_of : (a n x : ℕ) → x ≡ fields a n (x / 2 ^ (a + n)) (x / 2 ^ a % 2 ^ n) (x % 2 ^ a)
fields_of a n x =
    let high : x / 2 ^ a / 2 ^ n ≡ x / 2 ^ (a + n) =
      div-div-eq-div-mul x (2 ^ a) (2 ^ n) ∙ ap (λ (t : ℕ). x / t) (sym (pow-add a n)) in
    omega (
      arith,
      ap (λ (t : ℕ). t * (2 ^ a * 2 ^ n)) high,
      ap (λ (t : ℕ). x / 2 ^ (a + n) * t) (pow-add a n),
      div-add-mod' x (2 ^ a),
      ap (λ (t : ℕ). t * 2 ^ a) (div-add-mod' (x / 2 ^ a) (2 ^ n)),
    )

pub replaced-fields :
    (a n hi mid lo v : ℕ)
    → mid < 2 ^ n
    → lo < 2 ^ a
    → replaced a n v (fields a n hi mid lo) ≡ fields a n hi v lo
replaced-fields a n hi mid lo v hm hl =
    let above : fields a n hi mid lo / 2 ^ (a + n) ≡ hi =
      div-join hi (mid * 2 ^ a + lo) (2 ^ (a + n)) (middle-lt a n mid lo hm hl) in
    let sum : fields a n hi mid lo ≡ (hi * 2 ^ n + mid) * 2 ^ a + lo = grind (arith, pow-add a n) in
    let below : fields a n hi mid lo % 2 ^ a ≡ lo =
      ap (λ (t : ℕ). t % 2 ^ a) sum ∙ mod-join (hi * 2 ^ n + mid) lo (2 ^ a) hl in
    rw (above, below)

pub field-fields :
    (a n hi mid lo : ℕ) → mid < 2 ^ n → lo < 2 ^ a → field a n (fields a n hi mid lo) ≡ mid
field-fields a n hi mid lo hm hl =
    let sum : fields a n hi mid lo ≡ (hi * 2 ^ n + mid) * 2 ^ a + lo = grind (arith, pow-add a n) in
    ap (λ (t : ℕ). t / 2 ^ a % 2 ^ n) sum
    ∙ ap (λ (t : ℕ). t % 2 ^ n) (div-join (hi * 2 ^ n + mid) lo (2 ^ a) hl)
    ∙ mod-join hi mid (2 ^ n) hm

-- What is written is read back.
pub field-replaced : (a n v x : ℕ) → v < 2 ^ n → field a n (replaced a n v x) ≡ v
field-replaced a n v x hv =
    field-fields a n (x / 2 ^ (a + n)) v (x % 2 ^ a) hv (mod-lt x (pow_pos a))

-- A number placed above does not matter to a field that ends below it.
pub replaced_above :
    (W a n v x y : ℕ) → a + n ≤ W → replaced a n v (x + y * 2 ^ W) ≡ replaced a n v x + y * 2 ^ W
replaced_above W a n v x y h =
    let r = W - (a + n) in
    let hi = x / 2 ^ (a + n) in
    let mid = field a n x in
    let lo = x % 2 ^ a in
    let weight = ap (λ (t : ℕ). y * t) (split_pow (a + n) W h) in
    let sum : x + y * 2 ^ W ≡ fields a n (hi + y * 2 ^ r) mid lo =
      omega (arith, fields_of a n x, weight) in
    ap (replaced a n v) sum
    ∙ replaced-fields a n (hi + y * 2 ^ r) mid lo v (mod-lt (x / 2 ^ a) (pow_pos n))
        (mod-lt x (pow_pos a))
    ∙ omega (arith, weight)

pub field_above : (W a n x y : ℕ) → a + n ≤ W → field a n (x + y * 2 ^ W) ≡ field a n x
field_above W a n x y h =
    let r = W - (a + n) in
    let hi = x / 2 ^ (a + n) in
    let mid = field a n x in
    let lo = x % 2 ^ a in
    let weight = ap (λ (t : ℕ). y * t) (split_pow (a + n) W h) in
    let sum : x + y * 2 ^ W ≡ fields a n (hi + y * 2 ^ r) mid lo =
      omega (arith, fields_of a n x, weight) in
    ap (field a n) sum
    ∙ field-fields a n (hi + y * 2 ^ r) mid lo (mod-lt (x / 2 ^ a) (pow_pos n))
        (mod-lt x (pow_pos a))

-- Nor does a number below.
pub field_below : (W a n x y : ℕ) → x < 2 ^ W → field (W + a) n (x + y * 2 ^ W) ≡ field a n y
field_below W a n x y h =
    let above : (x + y * 2 ^ W) / 2 ^ (W + a) ≡ y / 2 ^ a =
      ap (λ (t : ℕ). (x + y * 2 ^ W) / t) (pow-add W a)
      ∙ sym (div-div-eq-div-mul (x + y * 2 ^ W) (2 ^ W) (2 ^ a))
      ∙ ap (λ (t : ℕ). t / 2 ^ W / 2 ^ a) {y = y * 2 ^ W + x} (omega arith)
      ∙ ap (λ (t : ℕ). t / 2 ^ a) (div-join y x (2 ^ W) h) in
    ap (λ (t : ℕ). t % 2 ^ n) above

pub replaced_below :
    (W a n v x y : ℕ)
    → x < 2 ^ W
    → replaced (W + a) n v (x + y * 2 ^ W) ≡ x + replaced a n v y * 2 ^ W
replaced_below W a n v x y h =
    let hi = y / 2 ^ (a + n) in
    let mid = field a n y in
    let lo = y % 2 ^ a in
    let low : lo * 2 ^ W + x < 2 ^ (W + a) = middle-lt W a lo x (mod-lt y (pow_pos a)) h in
    let shift : (u : ℕ) → fields a n hi u lo * 2 ^ W + x ≡ fields (W + a) n hi u (lo * 2 ^ W + x) =
      λ u. omega (
        arith,
        ap (λ (t : ℕ). u * t) (pow-add W a),
        ap (λ (t : ℕ). hi * t) (pow-add W (a + n)),
        ap (λ (t : ℕ). hi * 2 ^ t) {x = W + (a + n)} {y = W + a + n} (omega arith),
      ) in
    let sum : x + y * 2 ^ W ≡ fields (W + a) n hi mid (lo * 2 ^ W + x) =
      omega (arith, ap (λ (t : ℕ). t * 2 ^ W) (fields_of a n y), shift mid) in
    ap (replaced (W + a) n v) sum
    ∙ replaced-fields (W + a) n hi mid (lo * 2 ^ W + x) v (mod-lt (y / 2 ^ a) (pow_pos n)) low
    ∙ omega (arith, shift v)

-- A field that splits into two is replaced part by part.
pub replaced_split :
    (a n m v x : ℕ)
    → replaced a (n + m) v x ≡ replaced a n (v % 2 ^ n) (replaced (a + n) m (v / 2 ^ n) x)
replaced_split a n m v x =
    let hi = x / 2 ^ (a + n + m) in
    let mid = field a n x in
    let lo = x % 2 ^ a in
    let low : x % 2 ^ (a + n) ≡ mid * 2 ^ a + lo =
      ap (λ (t : ℕ). t % 2 ^ (a + n)) (fields_of a n x)
      ∙ mod-join (x / 2 ^ (a + n)) (mid * 2 ^ a + lo) (2 ^ (a + n))
          (middle-lt a n mid lo (mod-lt (x / 2 ^ a) (pow_pos n)) (mod-lt x (pow_pos a))) in
    let inner : replaced (a + n) m (v / 2 ^ n) x ≡ fields a n (hi * 2 ^ m + v / 2 ^ n) mid lo =
      omega (arith, low, ap (λ (t : ℕ). hi * t) (pow-add (a + n) m)) in
    let outer =
      replaced-fields a n (hi * 2 ^ m + v / 2 ^ n) mid lo (v % 2 ^ n)
        (mod-lt (x / 2 ^ a) (pow_pos n)) (mod-lt x (pow_pos a)) in
    let regroup : a + (n + m) ≡ a + n + m = omega arith in
    sym (
      ap (replaced a n (v % 2 ^ n)) inner
      ∙ outer
      ∙ rw regroup (
          omega (
            arith,
            ap (λ (t : ℕ). hi * t) (pow-add (a + n) m),
            ap (λ (t : ℕ). v / 2 ^ n * t) (pow-add a n),
            ap (λ (t : ℕ). t * 2 ^ a) (div-add-mod' v (2 ^ n)),
          )))

pub replaced-lt : (W a n v x : ℕ) → a + n ≤ W → v < 2 ^ n → x < 2 ^ W → replaced a n v x < 2 ^ W
replaced-lt W a n v x h hv hx =
    let split = split_pow (a + n) W h in
    let upper : x / 2 ^ (a + n) < 2 ^ (W - (a + n)) =
      (div-lt_iff_lt-mul (pow_pos (a + n))).1 (omega (arith, split)) in
    let low = middle-lt a n v (x % 2 ^ a) hv (mod-lt x (pow_pos a)) in
    rw split (grind (arith, low, upper))

-- A replaced field leaves the fields that end below it.
pub field-replaced_other :
    (a n a' m v x : ℕ) → a + n ≤ a' → field a n (replaced a' m v x) ≡ field a n x
field-replaced_other a n a' m v x h =
    let y = x / 2 ^ a' in
    let lo = x % 2 ^ a' in
    let whole : x ≡ lo + y * 2 ^ a' = omega (arith, div-add-mod' x (2 ^ a')) in
    let start : replaced a' m v (lo + y * 2 ^ a') ≡ lo + replaced 0 m v y * 2 ^ a' =
      ap (λ (t : ℕ). replaced t m v (lo + y * 2 ^ a')) {x = a'} {y = a' + 0} (omega arith)
      ∙ replaced_below a' 0 m v lo y (mod-lt x (pow_pos a')) in
    ap (λ (t : ℕ). field a n (replaced a' m v t)) whole
    ∙ ap (field a n) start
    ∙ field_above a' a n lo (replaced 0 m v y) h
    ∙ sym (field_above a' a n lo y h)
    ∙ ap (field a n) (sym whole)
