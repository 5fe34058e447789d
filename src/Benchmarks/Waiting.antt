-- ===== src/Benchmarks/Waiting.antt =====
-- The wait for the API ends, and finds an API that answers.
use events_api.Common.{
  ℕ, zero, suc, ◌+◌, ◌*◌, ◌≤◌, ◌<◌, ◌≡◌, ◌⊎◌, refl, true, false, inl, inr, arith, ltb, ltb→lt,
  lt→ltb, Bool-cases,
}
use events_api.Common.Result.{Result, ok, raise, other_error}
use events_api.Benchmarks.{Api, is_ready, wait_loop, wait_for_api}

-- The loop has found the API ready before the deadline, or gives up; and it ends by the limit.
abbrev pub Ends : Api → ℕ → Result (Unit {0}) × ℕ → ℕ → Type 0
Ends api deadline r limit =
    (((r.0 ≡ ok tt) × (t : ℕ) × (t < deadline) × (is_ready (api.get t) ≡ true))
      ⊎ (r.0 ≡ raise other_error))
    × (r.1 ≤ limit)

module _ (api : Api) (longest : ℕ) (short : (t : ℕ) → api.took t ≤ longest) (deadline : ℕ) where
  not_before : (now : ℕ) → deadline ≤ now → ltb now deadline ≡ false
  not_before now h = ground arith

  wait_loop-Ends :
      (n now : ℕ)
      → deadline ≤ now + 500 * n
      → now ≤ deadline + longest + 500
      → Ends api deadline (wait_loop api deadline n now) (deadline + longest + 500)
  unfolding wait_loop
  wait_loop-Ends zero now f b = rw (not_before now (omega (arith, f))) (inr refl, b)
  wait_loop-Ends (suc n) now f b = elim (Bool-cases (ltb now deadline)) [
    | inl early ↦ elim (Bool-cases (is_ready (api.get now))) [
      | inl ready ↦
          rw (early, ready)
            (
              inl (refl, now, ltb→lt now deadline early, ready),
              omega (arith, short now, ltb→lt now deadline early),
            )
      | inr refused ↦
          rw (early, refused)
            (wait_loop-Ends n (now + api.took now + 500) (omega (arith, f))
              (omega (arith, short now, ltb→lt now deadline early)))
    ]
    | inr late ↦ rw late (inr refl, b)
  ]

  ltb-false : (m n : ℕ) → ltb m n ≡ false → n ≤ m
  ltb-false m n h = ground arith

  wait_loop-finds :
      (up n now : ℕ)
      → ((t : ℕ) → up ≤ t → is_ready (api.get t) ≡ true)
      → up + longest + 500 ≤ deadline
      → deadline ≤ now + 500 * n
      → now < deadline
      → (wait_loop api deadline n now).0 ≡ ok tt
  unfolding wait_loop
  wait_loop-finds up zero now ready u f b = ground arith
  wait_loop-finds up (suc n) now ready u f b =
      rw (lt→ltb now deadline b) (elim (Bool-cases (is_ready (api.get now))) [
        | inl found ↦ rw found refl
        | inr refused ↦ rw refused (
            wait_loop-finds up n (now + api.took now + 500) ready u (omega (arith, f))
              (before_deadline now (not_up now refused)))
      ])
    where
      not_up : (t : ℕ) → is_ready (api.get t) ≡ false → t < up
      not_up t refused = elim (Bool-cases (ltb t up)) [
        | inl earlier ↦ ltb→lt t up earlier
        | inr since ↦ ground (arith, refused, ready t (ltb-false t up since))
      ]

      before_deadline : (t : ℕ) → t < up → t + api.took t + 500 < deadline
      before_deadline t earlier = omega (arith, short t)

-- Whatever the API does, where no request takes more than `longest` (the client gives up by its
-- timeout): the wait ends, that time and half a second after the deadline at the latest; either
-- the API was ready at some time before the deadline, or the wait raises the connection error, and
-- never the error for want of fuel.
pub wait_for_api-Ends :
    (api : Api) (longest timeout_sec now : ℕ)
    → ((t : ℕ) → api.took t ≤ longest)
    → Ends api
        (now + 1000 * timeout_sec)
        (wait_for_api api timeout_sec now)
        (now + 1000 * timeout_sec + longest + 500)
unfolding wait_for_api
wait_for_api-Ends api longest timeout_sec now short =
    wait_loop-Ends api longest short (now + 1000 * timeout_sec) (2 * timeout_sec) now (omega arith)
      (omega arith)

-- An API that answers with 200, 401 or 403 at each time from `up` on is found, if `up` comes
-- before the deadline by the longest request and half a second, and the timeout is a second at
-- least.
pub wait_for_api-finds :
    (api : Api) (longest timeout_sec now up : ℕ)
    → ((t : ℕ) → api.took t ≤ longest)
    → ((t : ℕ) → up ≤ t → is_ready (api.get t) ≡ true)
    → up + longest + 500 ≤ now + 1000 * timeout_sec
    → 1 ≤ timeout_sec
    → (wait_for_api api timeout_sec now).0 ≡ ok tt
unfolding wait_for_api
wait_for_api-finds api longest timeout_sec now up short ready u h =
    wait_loop-finds api longest short (now + 1000 * timeout_sec) up (2 * timeout_sec) now ready u
      (omega arith) (omega (arith, h))
