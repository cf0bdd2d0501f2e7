-- ===== src/Pool/Leak.antt =====
-- What a failed `_validate()` costs: the slot that the thread reserved before it is never given back.
use vendor_cat.Base.{ℕ, ◌≤◌, ◌≡◌, ◌≢◌, refl, subst, arith}
use vendor_cat.Pool.{
  Conn, Pool, collect_expired, Acquired, candidate, should_create, acquire_open, acquire,
  connect_failed, release, close,
}
use vendor_cat.Pool.Threads.{
  System, Step, take, reserve, wait, time_out, validate_failed, connected, not_connected, give_back,
  shut, Reach, here, next,
}
use vendor_cat.Pool.Balance.{
  IsBalanced, IsSound, in_use, used_after, acquire-IsBalanced, Step-IsSound,
}

acquire-max_size : (now deadline : ℕ) (p : Pool) → (acquire now deadline p).2.max_size ≡ p.max_size
unfolding acquire acquire_open collect_expired
acquire-max_size now deadline p = ground arith

-- With every slot in use no round hands out a connection or reserves a slot.
acquire-exhausted :
    (now deadline used : ℕ) (p : Pool) (result : Acquired)
    → IsBalanced used p
    → p.max_size ≤ used
    → (acquire now deadline p).0 ≡ result
    → used_after used result ≡ used
acquire-exhausted now deadline used p (candidate c) b full h =
    let after =
      subst (λ r. IsBalanced (used_after used r) (acquire now deadline p).2) h
        (acquire-IsBalanced now deadline used p b) in
    absurd (omega (arith, after.total, after.bounded, acquire-max_size now deadline p))
acquire-exhausted now deadline used p should_create b full h =
    let after =
      subst (λ r. IsBalanced (used_after used r) (acquire now deadline p).2) h
        (acquire-IsBalanced now deadline used p b) in
    absurd (omega (arith, after.total, after.bounded, acquire-max_size now deadline p))
acquire-exhausted now deadline used p _ b full h = refl

Step-lost : {s t : System} → Step s t → (s.lost ≤ t.lost) × (t.pool.max_size ≡ s.pool.max_size)
unfolding connect_failed release close
Step-lost {s} (take now deadline c h) = (omega arith, acquire-max_size now deadline s.pool)
Step-lost {s} (reserve now deadline h) = (omega arith, acquire-max_size now deadline s.pool)
Step-lost {s} (wait now deadline h) = (omega arith, acquire-max_size now deadline s.pool)
Step-lost {s} (time_out now deadline h) = (omega arith, acquire-max_size now deadline s.pool)
Step-lost (validate_failed h) = ground arith
Step-lost (connected c h) = ground arith
Step-lost (not_connected h) = ground arith
Step-lost (give_back now broken before after c h) = ground arith
Step-lost shut = ground arith

Reach-lost : {s t : System} → Reach s t → (s.lost ≤ t.lost) × (t.pool.max_size ≡ s.pool.max_size)
Reach-lost here = (omega arith, refl)
Reach-lost (next r st) = omega (arith, Reach-lost r, Step-lost st)

Reach-keeps_IsSound : {s t : System} → Reach s t → IsSound s → IsSound t
Reach-keeps_IsSound here b = b
Reach-keeps_IsSound (next r st) b = Step-IsSound st (Reach-keeps_IsSound r b)

-- Once as many calls of `_validate()` have failed as the pool has slots, from a sound state on no thread
-- gets a connection or may create one in any later state: the rounds of every later acquisition wait or
-- raise.
pub validate_leak :
    (now deadline : ℕ) {s t : System}
    → IsSound s
    → s.pool.max_size ≤ s.lost
    → Reach s t
    → ((c : Conn) → (acquire now deadline t.pool).0 ≢ candidate c)
      × ((acquire now deadline t.pool).0 ≢ should_create)
validate_leak now deadline {t = t} b full r =
    let b' = Reach-keeps_IsSound r b in
    let kept = Reach-lost r in
    let busy = acquire-exhausted now deadline (in_use t) t.pool in
    (
      λ c h. absurd (omega (arith, busy (candidate c) b' (omega (arith, kept)) h)),
      λ h. absurd (omega (arith, busy should_create b' (omega (arith, kept)) h)),
    )
