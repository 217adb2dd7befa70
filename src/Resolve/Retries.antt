-- ===== src/Resolve/Retries.antt =====
-- src/resolve.cpp, `download`: how often it tries, how long it waits, and what it writes.
use cyborgdb_embed.Prelude.{
  ℕ, zero, suc, ◌+◌, ◌^◌, ◌-◌, ◌≤◌, ◌<◌, ◌≡◌, sym, ap, subst, ◌∙◌, ◌⊎◌, inl, inr, Bool, true, false,
  not, ◌||◌, ◌∷◌, Option, some, ◌==◌, ==_iff, Bool-cases, Text, length, All, arith,
}
use cyborgdb_embed.Status.{Status, is_ok}
use cyborgdb_embed.Resolve.Download.{
  Attempt, System, Machine, max_attempts, backoff, download_once, download_from, download,
}

abbrev pub stops : Attempt → ℕ → Bool
stops r attempt = is_ok r.status || (not r.transient || attempt == max_attempts)

pub some_pair :
    {A : Type 0} {s t : A} {m n : Machine}
    → ◌≡◌ {A = Option (A × Machine)} (some (s, m)) (some (t, n))
    → (s ≡ t) × (m ≡ n)
some_pair e = (cc, cc)

last_stops : (r : Attempt) (attempt : ℕ) → attempt ≡ max_attempts → stops r attempt ≡ true
last_stops r attempt e = ground (arith, (==_iff attempt max_attempts).1 e)

true-false : {b : Bool} → b ≡ true → b ≡ false → ⊥
true-false p q = cc

not_last :
    (r : Attempt) (attempt : ℕ)
    → attempt ≤ max_attempts
    → stops r attempt ≡ false
    → attempt + 1 ≤ max_attempts
not_last r attempt h go = elim (Bool-cases (attempt == max_attempts)) [
  | inl e ↦ absurd (true-false (last_stops r attempt ((==_iff attempt max_attempts).0 e)) go)
  | inr e ↦ ground arith
]

positive_pow : (k : ℕ) → 1 ≤ 2 ^ k
positive_pow zero = omega arith
positive_pow (suc k) = omega (arith, positive_pow k)

backoff_bounds :
    (attempt retry_after : ℕ)
    → (1 ≤ backoff attempt retry_after) × (backoff attempt retry_after ≤ 60)
unfolding backoff
backoff_bounds attempt retry_after = ground (arith, positive_pow (attempt - 1))

-- Attempts and pauses from `m` to `m'`, of which the last attempt has none.
abbrev pub Retried : ℕ → Machine → Machine → Type 0
Retried left m m' =
    (m.transfers < m'.transfers)
    × (m'.transfers ≤ m.transfers + left)
    × (length m'.slept + m.transfers + 1 ≡ length m.slept + m'.transfers)
    × (All (λ p. (1 ≤ p) × (p ≤ 60)) m.slept → All (λ p. (1 ≤ p) × (p ≤ 60)) m'.slept)

module _ (sys : System) (url destination : Text) where
  abbrev pub once : Machine → Attempt × Machine
  once m = download_once sys url destination m

  abbrev pub paused : ℕ → Machine → Machine
  paused attempt m = record (once m).1 {
    slept = backoff attempt (once m).0.retry_after ∷ (once m).1.slept;
  }

  -- An attempt ends the loop, or is followed by a pause and the next.
  pub from_cases :
      (fuel attempt : ℕ) (m : Machine)
      → (stops (once m).0 attempt ≡ true)
          × (download_from sys url destination (suc fuel) attempt m
              ≡ some ((once m).0.status, (once m).1))
        ⊎ (stops (once m).0 attempt ≡ false)
          × (download_from sys url destination (suc fuel) attempt m
              ≡ download_from sys url destination fuel (attempt + 1) (paused attempt m))
  unfolding download_from
  from_cases fuel attempt m = elim (Bool-cases (stops (once m).0 attempt)) [
    | inl e ↦ inl (e, rw (download_from, e))
    | inr e ↦ inr (e, rw (download_from, e))
  ]

  from_total :
      (fuel attempt : ℕ) (m : Machine)
      → fuel + attempt ≡ suc max_attempts
      → attempt ≤ max_attempts
      → (r : Status × Machine) × (download_from sys url destination fuel attempt m ≡ some r)
  from_total zero attempt m e h = absurd (omega arith)
  from_total (suc fuel) attempt m e h = elim (from_cases fuel attempt m) [
    | inl (stop, e') ↦ (_, e')
    | inr (go, e') ↦
        let (r, e'') =
          from_total fuel (attempt + 1) (paused attempt m) (omega arith)
            (not_last (once m).0 attempt h go) in
        (r, e' ∙ e'')
  ]

  once_counts :
      (m : Machine) → ((once m).1.transfers ≡ m.transfers + 1) × ((once m).1.slept ≡ m.slept)
  unfolding download_once
  once_counts m = ground arith

  once-Retried : (fuel : ℕ) (m : Machine) → Retried (suc fuel) m (once m).1
  once-Retried fuel m =
      let (counted, slept) = once_counts m in
      (
        omega (arith, counted),
        omega (arith, counted),
        omega (arith, counted, ap length slept),
        λ bounds. subst (All (λ p. (1 ≤ p) × (p ≤ 60))) (sym slept) bounds,
      )

  again-Retried :
      (fuel attempt : ℕ) (m m' : Machine)
      → Retried fuel (paused attempt m) m'
      → Retried (suc fuel) m m'
  again-Retried fuel attempt m m' (more, few, even, bounded) =
      let (counted, slept) = once_counts m in
      (
        omega (arith, counted, more),
        omega (arith, counted, few),
        omega (arith, counted, even, ap length slept),
        λ bounds. bounded (
          backoff_bounds attempt (once m).0.retry_after,
          subst (All (λ p. (1 ≤ p) × (p ≤ 60))) (sym slept) bounds,
        ),
      )

  from-Retried :
      (fuel attempt : ℕ) (m m' : Machine) (s : Status)
      → download_from sys url destination fuel attempt m ≡ some (s, m')
      → Retried fuel m m'
  unfolding download_from
  from-Retried zero attempt m m' s e = cc
  from-Retried (suc fuel) attempt m m' s e = elim (from_cases fuel attempt m) [
    | inl (stop, e') ↦ subst (Retried (suc fuel) m) (some_pair (sym e' ∙ e)).1 (once-Retried fuel m)
    | inr (go, e') ↦
        again-Retried fuel attempt m m'
          (from-Retried fuel (attempt + 1) (paused attempt m) m' s (sym e' ∙ e))
  ]

  -- `download` returns, after one to five attempts with one pause between each two, and every pause
  -- that it adds lasts from 1 to 60 seconds.
  pub download_lem :
      (m : Machine)
      → (s : Status) × (m' : Machine) × (download sys url destination m ≡ some (s, m'))
        × Retried max_attempts m m'
  unfolding download
  download_lem m =
      let ((s, m'), e) = from_total max_attempts 1 m (omega arith) (omega arith) in
      (s, m', e, from-Retried max_attempts 1 m m' s e)
