-- ===== src/Go/Float.antt =====
-- float64 on numbers that are not negative: conversion, division and math.Ceil, with IEEE 754's
-- rounding to nearest, ties to even.
pub mod Exact
use terra_worker.Prelude.{ℕ, zero, suc, ◌+◌, ◌-◌, ◌*◌, ◌/◌, ◌%◌, ◌^◌, ◌==◌, ltb, if◌then◌else◌}

-- a float, as a fraction whose denominator is a power of 2
pub record Float : Type 0 where
  pub num : ℕ
  pub den : ℕ

-- a / b as the nearest whole number, the even one of two
unfoldable pub round_even : ℕ → ℕ → ℕ
round_even a b =
    let q = a / b in
    let r = a % b in if ltb (2 * r) b then q else if ltb b (2 * r) then q + 1 else q + q % 2

-- Doubles a numerator, and with it a scale, until the quotient has 53 bits.
unfoldable pub scale_up : ℕ → ℕ → ℕ → ℕ → ℕ × ℕ
scale_up zero a b scale = (a, scale)
scale_up (suc fuel) a b scale =
    let rest = scale_up fuel (2 * a) b (2 * scale) in
    if ltb a (2 ^ 52 * b) then rest else (a, scale)

-- Doubles a denominator, and with it a scale, until the quotient has no more than 53 bits.
unfoldable pub scale_down : ℕ → ℕ → ℕ → ℕ → ℕ × ℕ
scale_down zero a b scale = (b, scale)
scale_down (suc fuel) a b scale =
    let rest = scale_down fuel a (2 * b) (2 * scale) in
    if ltb a (2 ^ 53 * b) then (b, scale) else rest

-- The float nearest to a / b, for a quotient that is 0 or between 2^-64 and 2^117, as those of
-- uint64s are.
unfoldable pub nearest : ℕ → ℕ → Float
nearest a b =
    let up = scale_up 117 a b 1 in
    let down = scale_down 64 up.0 b 1 in
    record { num = round_even up.0 down.0 * down.1; den = up.1 }

-- float64(n)
unfoldable pub float64 : ℕ → Float
float64 n = nearest n 1

-- x / y
unfoldable pub divide : Float → Float → Float
divide x y = nearest (x.num * y.den) (x.den * y.num)

-- math.Ceil, as a whole number
unfoldable pub ceil : Float → ℕ
ceil x = (x.num + (x.den - 1)) / x.den
