-- ===== src/A2/Scheduler/Laws.antt =====
-- What the schedulers of a2/kernel.c leave behind, and which of them keep a process over a page
-- fault.
use comp310_w.Prelude.{
  ℕ, zero, suc, ◌≡◌, refl, ◌⊎◌, ◌==◌, ◌&&◌, ◌||◌, not, Bool, true, false, Option, Str, codes,
  str_eq, str_eq_sym, if_elim, arith, Bool-cases, inl, inr,
}
use comp310_w.A2.Store.{null}
use comp310_w.A2.ReadyQueue.{is_ready_empty, sort_ready_queue}
use comp310_w.A2.Kernel.{Machine, Run, ended, fault, stuck, queue_do, scheduling_error}
use comp310_w.A2.Scheduler.{
  while_ready, scheduler_fcfs, scheduler_rr, scheduler_sjf, scheduler_aging, schedule_by_policy,
}

-- Where a part of the kernel ends, the queue is empty.
abbrev pub Drained : {A : Type 0} → Run A → Type 0
Drained (ended _ m) = m.queue.head ≡ null
Drained fault = Unit
Drained stuck = Unit

-- The five names of policies.
unfoldable pub known_policy : Str → Bool
known_policy p =
    str_eq p (codes "FCFS")
    || str_eq p (codes "SJF")
    || str_eq p (codes "RR")
    || str_eq p (codes "AGING")
    || str_eq p (codes "RR30")

-- The first test of `schedule_by_policy`.
abbrev unknown_policy : Str → Bool
unknown_policy p =
    not (str_eq p (codes "FCFS"))
    && not (str_eq p (codes "SJF"))
    && not (str_eq p (codes "RR"))
    && not (str_eq p (codes "AGING"))
    && not (str_eq p (codes "RR30"))

unknown : (p : Str) → unknown_policy p ≡ true → known_policy p ≡ false
unfolding known_policy
unknown p e = ground arith

known_of : (p : Str) → unknown_policy p ≡ false → known_policy p ≡ true
unfolding known_policy
known_of p e = ground arith

-- A known policy passes one of the tests behind the first.
no_other :
    (p : Str)
    → known_policy p ≡ true
    → str_eq (codes "FCFS") p ≡ false
    → str_eq (codes "SJF") p ≡ false
    → str_eq (codes "RR") p ≡ false
    → str_eq (codes "AGING") p ≡ false
    → str_eq (codes "RR30") p ≡ false
    → ⊥
unfolding known_policy
no_other p k f s r a z = ground (
  arith,
  str_eq_sym p (codes "FCFS"),
  str_eq_sym p (codes "SJF"),
  str_eq_sym p (codes "RR"),
  str_eq_sym p (codes "AGING"),
  str_eq_sym p (codes "RR30"),
)

-- What a call of `schedule_by_policy` returns and leaves.
abbrev pub Scheduled : Str → Machine → Run ℕ → Type 0
Scheduled policy m (ended n m') =
    ((known_policy policy ≡ false) × (n ≡ scheduling_error) × (m' ≡ m))
    ⊎ ((known_policy policy ≡ true) × (n ≡ 0) × (m.in_background ≡ true) × (m' ≡ m))
    ⊎ ((known_policy policy ≡ true) × (n ≡ 0) × (m.in_background ≡ false) × (m'.queue.head ≡ null))
Scheduled policy m fault = (known_policy policy ≡ true) × (m.in_background ≡ false)
Scheduled policy m stuck = (known_policy policy ≡ true) × (m.in_background ≡ false)

module _ (F V : ℕ) (prog_name : ℕ → Str) (parse_line : Str → Machine → Option Machine) where
  after :
      {A : Type 0} (r : Run A) (k : Machine → Run (Unit {0}))
      → ((m : Machine) → Drained (k m))
      → Drained
          (elim r as (λ _. Run (Unit {0})) [ ended _ m' ↦ k m' | fault ↦ fault | stuck ↦ stuck ])
  after (ended a m) k h = h m
  after fault k h = tt
  after stuck k h = tt

  while_ready-Drained :
      (k : ℕ) (turn : Machine → Run (Unit {0})) (m : Machine)
      → Drained (while_ready F V prog_name parse_line k turn m)
  unfolding while_ready is_ready_empty
  while_ready-Drained zero turn m = tt
  while_ready-Drained (suc k) turn m = elim (Bool-cases (m.queue.head == null)) [
    | inl e ↦ rw e (ground arith)
    | inr e ↦
        rw e (
          after (turn m) (while_ready F V prog_name parse_line k turn) (while_ready-Drained k turn))
  ]

  sorted_aging :
      (turns fuel : ℕ) (m : Machine)
      → Drained (scheduler_aging F V prog_name parse_line turns fuel m)
  unfolding scheduler_aging
  sorted_aging turns fuel m =
      after (queue_do (sort_ready_queue fuel) m) _ (while_ready-Drained turns _)

  -- A scheduler that ran to its end, and the return of 0 behind it.
  ran :
      (policy : Str) (m : Machine) (r : Run (Unit {0}))
      → known_policy policy ≡ true
      → m.in_background ≡ false
      → Drained r
      → Scheduled policy m
          (elim r as (λ _. Run ℕ) [ ended _ m' ↦ ended 0 m' | fault ↦ fault | stuck ↦ stuck ])
  ran policy m (ended _ m') k b d = inr (inr (k, refl, b, d))
  ran policy m fault k b d = (k, b)
  ran policy m stuck k b d = (k, b)

  -- Whatever the policy and the state, `schedule_by_policy` either returns SCHEDULING_ERROR on a
  -- name that is no policy, and changes nothing; or returns 0 at once in the background, and
  -- changes nothing; or runs a scheduler, which can only end with an empty queue, and returns 0.
  pub schedule_by_policy-Scheduled :
      (turns fuel : ℕ) (policy : Str) (m : Machine)
      → Scheduled policy m (schedule_by_policy F V prog_name parse_line turns fuel policy m)
  unfolding schedule_by_policy scheduler_fcfs scheduler_sjf scheduler_rr scheduler_aging
  schedule_by_policy-Scheduled turns fuel policy m =
      if_elim P _ _ _ (λ e. inl (unknown policy e, refl, refl))
        (λ e.
          let known = known_of policy e in
          if_elim P _ _ _ (λ b. inr (inl (known, refl, b, refl)))
            (λ b.
              if_elim P _ _ _ (λ _. ran policy m _ known b (while_ready-Drained turns _ m))
                (λ f.
                  if_elim P _ _ _ (λ _. ran policy m _ known b (while_ready-Drained turns _ m))
                    (λ s.
                      if_elim P _ _ _ (λ _. ran policy m _ known b (while_ready-Drained turns _ m))
                        (λ r.
                          if_elim P _ _ _ (λ _. ran policy m _ known b (sorted_aging turns fuel m))
                            (λ a.
                              if_elim P _ _ _
                                (λ _. ran policy m _ known b (while_ready-Drained turns _ m))
                                (λ z. absurd (no_other policy known f s r a z))))))))
    where
      P : Run ℕ → Type 0
      P r = Scheduled policy m r
