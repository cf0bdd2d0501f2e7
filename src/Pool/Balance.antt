-- ===== src/Pool/Balance.antt =====
-- The count of the pool: every slot is idle in the pool, held by a thread, being connected or lost,
-- and there are at most `max_size`.
use vendor_cat.Base.{
  ℕ, suc, ◌+◌, ◌≤◌, Bool, true, false, not, none, some, List, [], ◌∷◌, ◌≡◌, refl, ap, ◌∙◌, map,
  keep, length, length-append, arith, inl, inr, Bool-cases, Option-cases, ◌⊎◌,
}
use vendor_cat.Pool.{
  Conn, Pool, new, is_stale, collect_expired, pop, Acquired, pool_closed, candidate, should_create,
  timed_out, waits, acquire_open, acquire, connect_failed, release, close,
}
use vendor_cat.Pool.Threads.{
  System, start, Step, take, reserve, wait, time_out, validate_failed, connected, not_connected,
  give_back, shut, Reach, here, next,
}

pub length-keep-split {ℓ} :
    {A : Type ℓ} (p : A → Bool) (xs : List A)
    → length (keep p xs) + length (keep (λ x. not (p x)) xs) ≡ length xs
unfolding keep
length-keep-split p [] = omega arith
length-keep-split p (x ∷ xs) = ground (arith, length-keep-split p xs)

pop-none : (xs : List (ℕ × Conn)) → pop xs ≡ none → xs ≡ []
unfolding pop
pop-none [] h = refl
pop-none (x ∷ xs) h = absurd (ground arith)

pub length-pop :
    (xs rest : List (ℕ × Conn)) (c : Conn) → pop xs ≡ some (c, rest) → length xs ≡ length rest + 1
unfolding pop
length-pop [] rest c h = absurd (cc)
length-pop (x ∷ xs) rest c h = elim (Option-cases (pop xs)) [
  | inl last ↦ ground (arith, pop-none xs)
  | inr ((d, more), found) ↦ ground (arith, length-pop xs more d)
]

-- What holds of the pool beside `used` slots that are not idle in it.
pub record IsBalanced (used : ℕ) (p : Pool) : Type 0 where
  pub total : p.total_connections ≡ length p.available + used
  pub bounded : p.total_connections ≤ p.max_size
  pub shut_empty : p.closed ≡ true → p.available ≡ []

collect_expired-IsBalanced :
    (now used : ℕ) (p : Pool)
    → p.closed ≡ false
    → IsBalanced used p
    → IsBalanced used (collect_expired now p).1
unfolding collect_expired
collect_expired-IsBalanced now used p opened b =
    ground (arith, length-keep-split (is_stale p.idle_ttl now) p.available)

-- The slots in use after a round.
abbrev pub used_after : ℕ → Acquired → ℕ
used_after used (candidate c) = used + 1
used_after used should_create = used + 1
used_after used _ = used

acquire_open-IsBalanced :
    (now deadline used : ℕ) (p : Pool)
    → p.closed ≡ false
    → IsBalanced used p
    → IsBalanced (used_after used (acquire_open now deadline p).0) (acquire_open now deadline p).1
unfolding acquire_open
acquire_open-IsBalanced now deadline used p opened b = elim (Option-cases (pop p.available)) [
  | inl missing ↦ ground (arith, missing)
  | inr ((c, rest), found) ↦ ground (arith, found, length-pop p.available rest c)
]

collect_expired-closed : (now : ℕ) (p : Pool) → (collect_expired now p).1.closed ≡ p.closed
unfolding collect_expired
collect_expired-closed now p = ground arith

acquire-closed :
    (now deadline : ℕ) (p : Pool) → p.closed ≡ true → acquire now deadline p ≡ (pool_closed, [], p)
unfolding acquire
acquire-closed now deadline p h = ground arith

acquire-opened :
    (now deadline : ℕ) (p : Pool)
    → p.closed ≡ false
    → acquire now deadline p ≡ (
      (acquire_open now deadline (collect_expired now p).1).0,
      (collect_expired now p).0,
      (acquire_open now deadline (collect_expired now p).1).1,
    )
unfolding acquire
acquire-opened now deadline p h = ground arith

-- A round keeps the balance, whatever its outcome.
pub acquire-IsBalanced :
    (now deadline used : ℕ) (p : Pool)
    → IsBalanced used p
    → IsBalanced (used_after used (acquire now deadline p).0) (acquire now deadline p).2
acquire-IsBalanced now deadline used p b = elim (Bool-cases p.closed) [
  | inl over ↦ rw (acquire-closed now deadline p over) b
  | inr opened ↦ rw (acquire-opened now deadline p opened) (
      acquire_open-IsBalanced now deadline used (collect_expired now p).1
        (collect_expired-closed now p ∙ opened) (collect_expired-IsBalanced now used p opened b))
]

acquire_open-waits :
    (now deadline : ℕ) (p : Pool)
    → ((acquire_open now deadline p).0 ≡ waits) ⊎ ((acquire_open now deadline p).0 ≡ timed_out)
    → (p.available ≡ []) × (p.max_size ≤ p.total_connections)
unfolding acquire_open
acquire_open-waits now deadline p h = elim (Option-cases (pop p.available)) [
  | inl missing ↦ (pop-none p.available missing, ground (arith, missing))
  | inr ((c, rest), found) ↦ absurd (ground (arith, found))
]

length-map {ℓ κ} :
    {A : Type ℓ} {B : Type κ} (f : A → B) (xs : List A) → length (map f xs) ≡ length xs
length-map f [] = refl
length-map f (x ∷ xs) = ap suc (length-map f xs)

collect_expired-total :
    (now used : ℕ) (p : Pool)
    → IsBalanced used p
    → ((collect_expired now p).1.total_connections + length (collect_expired now p).0
        ≡ p.total_connections)
      × ((collect_expired now p).1.max_size ≡ p.max_size)
unfolding collect_expired
collect_expired-total now used p b = ground (
  arith,
  length-keep-split (is_stale p.idle_ttl now) p.available,
  length-map {0, 0} (λ (x : ℕ × Conn). x.1) (keep (is_stale p.idle_ttl now) p.available),
)

nil_of_length : (xs : List Conn) → length xs ≤ 0 → xs ≡ []
nil_of_length [] h = refl
nil_of_length (x ∷ xs) h = absurd (omega arith)

-- From a balanced pool, a round that waits or raises the time-out has no stale connection to close, so
-- it forgets none.
pub acquire-waits_stale :
    (now deadline used : ℕ) (p : Pool)
    → IsBalanced used p
    → ((acquire now deadline p).0 ≡ waits) ⊎ ((acquire now deadline p).0 ≡ timed_out)
    → (acquire now deadline p).1 ≡ []
acquire-waits_stale now deadline used p b h = elim (Bool-cases p.closed) [
  | inl over ↦ rw (acquire-closed now deadline p over)
  | inr opened ↦
      let (_, full) =
        acquire_open-waits now deadline (collect_expired now p).1
          (rw (acquire-opened now deadline p opened) at h) in
      rw (acquire-opened now deadline p opened) (
        nil_of_length (collect_expired now p).0
          (omega (arith, full, collect_expired-total now used p b, b.bounded)))
]

-- The slots of a system that are not idle in its pool.
abbrev pub in_use : System → ℕ
in_use s = length s.leased + s.connecting + s.lost

abbrev pub IsSound : System → Type 0
IsSound s = IsBalanced (in_use s) s.pool

after_round :
    (now deadline : ℕ) (s : System) (result : Acquired)
    → (acquire now deadline s.pool).0 ≡ result
    → IsSound s
    → IsBalanced (used_after (in_use s) result) (acquire now deadline s.pool).2
after_round now deadline s result h b =
    rw (← h) (acquire-IsBalanced now deadline (in_use s) s.pool b)

IsBalanced-eq : (m n : ℕ) (p : Pool) → m ≡ n → IsBalanced m p → IsBalanced n p
IsBalanced-eq m n p e b = rw (← e) b

pub Step-IsSound : {s t : System} → Step s t → IsSound s → IsSound t
unfolding connect_failed release close
Step-IsSound {s} (take now deadline c h) b =
    IsBalanced-eq _ _ _ (omega arith) (after_round now deadline s (candidate c) h b)
Step-IsSound {s} (reserve now deadline h) b =
    IsBalanced-eq _ _ _ (omega arith) (after_round now deadline s should_create h b)
Step-IsSound {s} (wait now deadline h) b = after_round now deadline s waits h b
Step-IsSound {s} (time_out now deadline h) b = after_round now deadline s timed_out h b
Step-IsSound (validate_failed h) b = ground arith
Step-IsSound (connected c h) b = ground arith
Step-IsSound (not_connected h) b = ground arith
Step-IsSound {s} (give_back now broken before after c h) b = ground (
  arith,
  ap (λ (xs : List Conn). length xs) h,
  length-append {0} before (c ∷ after),
  length-append {0} before after,
  length-append {0} s.pool.available ((now, c) ∷ []),
)
Step-IsSound shut b = ground arith

-- In every state that the threads can reach from a new pool, each slot that is counted is idle in the
-- pool, held by a thread, being connected or lost; at most `max_size` are counted; and a closed pool
-- holds no idle connection.
pub Reach-IsSound :
    (max_size idle_ttl : ℕ) {s : System} → Reach (start max_size idle_ttl) s → IsSound s
unfolding new
Reach-IsSound max_size idle_ttl here = record {
  total = refl;
  bounded = omega arith;
  shut_empty = λ h. refl;
}
Reach-IsSound max_size idle_ttl (next r st) = Step-IsSound st (Reach-IsSound max_size idle_ttl r)
