-- ===== src/Time/Quanta.antt =====
-- time::TimeService: the number of quanta of the wheel.
use coffee.Base.{
  ℕ, zero, suc, ◌+◌, ◌*◌, ◌/◌, ◌<◌, ◌≤◌, ◌≡◌, refl, false, arith, if◌then◌else◌, ltb, number_key,
  Bool-cases, inl, inr,
}
use native.Mathlib.Nat.{div-mul-le_self, lt-div-mul-add}
use coffee.Time.Service.{calcule_max_quantum, round_up}

round_up-done :
    (fuel max_time resolution result : ℕ)
    → (ltb (result * resolution) max_time) ≡ false
    → round_up fuel max_time resolution result ≡ result
unfolding round_up
round_up-done zero max_time resolution result h = refl
round_up-done (suc fuel) max_time resolution result h = ground arith

round_up_once :
    (fuel max_time resolution result : ℕ)
    → 0 < fuel
    → max_time < suc result * resolution
    → round_up fuel max_time resolution result
      ≡ (if ltb (result * resolution) max_time then suc result else result)
unfolding round_up
round_up_once zero max_time resolution result p h = absurd (omega arith)
round_up_once (suc fuel) max_time resolution result p h =
    ground (arith, round_up-done fuel max_time resolution (suc result))

ceiling :
    (m r q t : ℕ)
    → 0 < r
    → q * r ≤ m
    → m < q * r + r
    → t ≡ (if ltb (q * r) m then suc q else q)
    → (m ≤ t * r) × (t * r < m + r)
ceiling m r q t p h k e = elim (Bool-cases (ltb (q * r) m)) [
  | inl more ↦ let e' : t ≡ suc q = ground arith in rw e' (ground arith)
  | inr done ↦ let e' : t ≡ q = ground arith in rw e' (ground arith)
]

-- The number of quanta is the least one that covers the longest timeout, and the loop that finds it
-- ends after one round at most.
pub calcule_max_quantum_least :
    (max_time resolution : ℕ)
    → 0 < resolution
    → 0 < max_time
    → (max_time ≤ calcule_max_quantum max_time resolution * resolution)
      × (calcule_max_quantum max_time resolution * resolution < max_time + resolution)
unfolding calcule_max_quantum
calcule_max_quantum_least max_time resolution p h =
    let below = div-mul-le_self max_time resolution in
    let above = lt-div-mul-add {a = max_time} p in
    ceiling max_time resolution (max_time / resolution) _ p below above
      (round_up_once max_time max_time resolution (max_time / resolution) h (omega (arith, above)))
