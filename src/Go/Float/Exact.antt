-- ===== src/Go/Float/Exact.antt =====
-- Division by 100 and math.Ceil, where they are exact.
use native.Mathlib.Nat.{
  mul-le-mul_left, le_of_mul-le-mul_right, div-add-mod', mod-lt, le-div_iff_mul-le,
  div-lt_iff_lt-mul,
}
use terra_worker.Prelude.{
  ℕ, zero, suc, ◌+◌, ◌-◌, ◌*◌, ◌/◌, ◌%◌, ◌^◌, ◌≤◌, ◌<◌, ◌≡◌, ◌⊎◌, inl, inr, refl, ap, ◌∙◌, arith,
  Bool-cases, ltb, true,
}
use terra_worker.Go.Float.{round_even, scale_up, scale_down, nearest, float64, divide, ceil}

next_mul : (q b : ℕ) → (q + 1) * b ≡ q * b + b
next_mul q b = grind arith

parity : (q : ℕ) → (q % 2 ≡ 0) ⊎ (q % 2 ≡ 1)
parity q = ground arith

-- within one half of the quotient
round_even-near :
    (a b : ℕ)
    → 0 < b
    → (2 * a ≤ 2 * (round_even a b * b) + b) × (2 * (round_even a b * b) ≤ 2 * a + b)
unfolding round_even
round_even-near a b pos =
    let whole = div-add-mod' a b in
    let part = mod-lt a pos in
    let more = next_mul (a / b) b in
    elim (Bool-cases (ltb (2 * (a % b)) b)) [
      | inl low ↦ rw low (ground arith, omega (arith, whole))
      | inr half ↦ rw half (elim (Bool-cases (ltb b (2 * (a % b)))) [
        | inl high ↦ rw high (omega (arith, whole, part, more), ground (arith, whole, more))
        | inr tie ↦ rw tie (elim (parity (a / b)) [
          | inl even ↦ rw even (ground (arith, whole), ground (arith, whole))
          | inr odd ↦ rw odd (ground (arith, whole, more), ground (arith, whole, more))
        ])
      ])
    ]

round_even-one : (a : ℕ) → round_even a 1 ≡ a
unfolding round_even
round_even-one a = ground arith

scale_up-IsScaled :
    (fuel a b scale x : ℕ)
    → a ≡ x * scale
    → (scale_up fuel a b scale).0 ≡ x * (scale_up fuel a b scale).1
unfolding scale_up
scale_up-IsScaled zero a b scale x h = h
scale_up-IsScaled (suc fuel) a b scale x h = elim (Bool-cases (ltb a (2 ^ 52 * b))) [
  | inl small ↦ rw small (scale_up-IsScaled fuel (2 * a) b (2 * scale) x (rw h (grind arith)))
  | inr large ↦ rw large h
]

scale_up-grows :
    (fuel a b scale : ℕ)
    → 0 < scale
    → ((2 ^ 52 * b ≤ (scale_up fuel a b scale).0) ⊎ (scale + fuel ≤ (scale_up fuel a b scale).1))
      × (0 < (scale_up fuel a b scale).1)
unfolding scale_up
scale_up-grows zero a b scale pos = (inr (omega arith), pos)
scale_up-grows (suc fuel) a b scale pos =
    let (grown, pos') = scale_up-grows fuel (2 * a) b (2 * scale) (omega arith) in
    elim (Bool-cases (ltb a (2 ^ 52 * b))) [
      | inl small ↦ rw small (elim grown [ inl h ↦ inl h | inr h ↦ inr (omega arith) ], pos')
      | inr large ↦ rw large (inl (ground arith), pos)
    ]

scale_up-bounded : (fuel a b scale : ℕ) → a < 2 ^ 53 * b → (scale_up fuel a b scale).0 < 2 ^ 53 * b
unfolding scale_up
scale_up-bounded zero a b scale h = h
scale_up-bounded (suc fuel) a b scale h = elim (Bool-cases (ltb a (2 ^ 52 * b))) [
  | inl small ↦ rw small (scale_up-bounded fuel (2 * a) b (2 * scale) (ground arith))
  | inr large ↦ rw large h
]

scale_down-eq : (a b : ℕ) → a < 2 ^ 53 * b → scale_down 64 a b 1 ≡ (b, 1)
unfolding scale_down
scale_down-eq a b h = let small : ltb a (2 ^ 53 * b) ≡ true = ground arith in rw small refl

-- a quotient by its bounds
div_between : (x y k : ℕ) → 0 < y → k * y ≤ x → x < (k + 1) * y → x / y ≡ k
div_between x y k pos low high =
    let least = (le-div_iff_mul-le {k = y} {x = k} {y = x} pos).1 low in
    let most = (div-lt_iff_lt-mul {k = y} {x = x} {y = k + 1} pos).1 high in omega arith

-- where half a unit is less than a hundredth
ceil_hundredth :
    (n scale m : ℕ)
    → 50 < scale
    → 2 * (n * scale) ≤ 200 * m + 100
    → 200 * m ≤ 2 * (n * scale) + 100
    → (m + (scale - 1)) / scale ≡ (n + 99) / 100
ceil_hundredth n scale m fine low high =
    let k = (n + 99) / 100 in
    let above : n * scale ≤ 100 * k * scale =
      grind (arith, mul-le-mul_left {m = n} {n = 100 * k} scale (omega arith)) in
    let below : 100 * k * scale ≤ (n + 99) * scale =
      grind (arith, mul-le-mul_left {m = 100 * k} {n = n + 99} scale (omega arith)) in
    let product : ℕ = n * scale in
    let hundreds : 100 * k * scale ≡ 100 * (k * scale) = grind arith in
    let more : (n + 99) * scale ≡ n * scale + 99 * scale = grind arith in
    let step : (k + 1) * scale ≡ k * scale + scale = next_mul k scale in
    div_between (m + (scale - 1)) scale k (omega arith) (omega (arith, below, hundreds, more, low))
      (omega (arith, above, hundreds, step, high))

-- the rounded quotient of a scaled fraction that stands for so many hundredths
rounded_hundredth :
    (n a b scale : ℕ)
    → 0 < b
    → n < 2 ^ 53
    → 100 * a ≡ n * b
    → 0 < scale
    → (2 ^ 52 * b ≤ a * scale) ⊎ (118 ≤ scale)
    → (round_even (a * scale) b + (scale - 1)) / scale ≡ (n + 99) / 100
rounded_hundredth n a b scale pos small same some grown =
    let m = round_even (a * scale) b in
    let (low, high) = round_even-near (a * scale) b pos in
    let left : 100 * (a * scale) ≡ 100 * a * scale = grind arith in
    let right : n * b * scale ≡ n * scale * b = grind arith in
    let whole : 100 * (a * scale) ≡ n * scale * b = left ∙ ap (λ x. x * scale) same ∙ right in
    let fine : 50 < scale = elim grown [
      | inl h ↦
          let many : 100 * 2 ^ 52 ≤ n * scale =
            le_of_mul-le-mul_right {m = 100 * 2 ^ 52} {n = n * scale} {k = b}
              (omega (arith, h, whole)) pos in
          elim (Bool-cases (ltb 50 scale)) [
            | inl is ↦ ground (arith, is)
            | inr not ↦
                let few : n * scale ≤ n * 50 =
                  mul-le-mul_left {m = scale} {n = 50} n (ground (arith, not)) in
                absurd (omega (arith, many, few, small))
          ]
      | inr h ↦ omega arith
    ] in
    let twice : 2 * (n * scale) * b ≡ 2 * (n * scale * b) = grind arith in
    let rounded : (200 * m + 100) * b ≡ 200 * (m * b) + 100 * b = grind arith in
    let twice' : (2 * (n * scale) + 100) * b ≡ 2 * (n * scale * b) + 100 * b = grind arith in
    let rounded' : 200 * m * b ≡ 200 * (m * b) = grind arith in
    ceil_hundredth n scale m fine
      (le_of_mul-le-mul_right {m = 2 * (n * scale)} {n = 200 * m + 100} {k = b}
        (omega (arith, twice, rounded, low, whole)) pos)
      (le_of_mul-le-mul_right {m = 200 * m} {n = 2 * (n * scale) + 100} {k = b}
        (omega (arith, twice', rounded', high, whole)) pos)

nearest-hundredth :
    (n a b : ℕ) → 0 < b → n < 2 ^ 53 → 100 * a ≡ n * b → ceil (nearest a b) ≡ (n + 99) / 100
unfolding nearest ceil
nearest-hundredth n a b pos small same =
    let most : n * b ≤ 2 ^ 53 * b =
      grind (arith, mul-le-mul_left {m = n} {n = 2 ^ 53} b (omega arith)) in
    let scaled = scale_up-IsScaled 117 a b 1 a (omega arith) in
    let (grown, some) = scale_up-grows 117 a b 1 (omega arith) in
    let bounded = scale_up-bounded 117 a b 1 (omega (arith, same, most)) in
    let scale = (scale_up 117 a b 1).1 in
    let one : round_even (a * scale) b * 1 ≡ round_even (a * scale) b = omega arith in
    rw (scale_down-eq (scale_up 117 a b 1).0 b bounded, scaled, one)
      (rounded_hundredth n a b scale pos small same some (rw scaled at grown))

-- a whole number with no more than 53 bits is converted without a loss
float64-exact :
    (n : ℕ) → n < 2 ^ 53 → ((float64 n).num ≡ n * (float64 n).den) × (0 < (float64 n).den)
unfolding float64 nearest
float64-exact n small =
    let scaled = scale_up-IsScaled 117 n 1 1 n (omega arith) in
    let bounded = scale_up-bounded 117 n 1 1 (omega arith) in
    let whole = round_even-one (scale_up 117 n 1 1).0 in
    (
      rw (scale_down-eq (scale_up 117 n 1 1).0 1 bounded) (omega (arith, whole, scaled)),
      (scale_up-grows 117 n 1 1 (omega arith)).1,
    )

hundredfold : (n p q : ℕ) → 100 * (n * p * q) ≡ n * (p * (100 * q))
hundredfold n p q = grind arith

positive : (p q : ℕ) → 0 < p → 0 < q → 0 < p * (100 * q)
positive p q hp hq = grind (arith, mul-le-mul_left {m = 1} {n = 100 * q} p (omega arith))

-- Below 2^53, the number of hundreds that math.Ceil gives is the exact one.
pub ceil-divide-hundred :
    (n : ℕ) → n < 2 ^ 53 → ceil (divide (float64 n) (float64 100)) ≡ (n + 99) / 100
unfolding divide
ceil-divide-hundred n small =
    let (num, den) = float64-exact n small in
    let (num', den') = float64-exact 100 (omega arith) in
    let x = float64 n in
    let y = float64 100 in
    nearest-hundredth n (x.num * y.den) (x.den * y.num) (rw num' (positive x.den y.den den den'))
      small (rw (num, num') (hundredfold n x.den y.den))
