-- ===== src/WsSession/Backoff.antt =====
-- The delay before a reconnection.
use eventbook.Prelude.{
  ℕ, zero, suc, ◌*◌, ◌^◌, ◌≤◌, ◌≡◌, refl, true, false, if◌then◌else◌, Bool-cases, inl, inr, arith,
  ap, ◌∙◌,
}
use eventbook.Prelude.Int.{ℤ, pos, negsuc, pos_part, leb_ℤ}
use eventbook.WsSession.{doubled, at_most, reconnect_backoff}

double_power : (delay attempt : ℕ) → delay * 2 * 2 ^ attempt ≡ delay * 2 ^ suc attempt
double_power delay attempt = grind arith

le_power : (attempt delay : ℕ) → delay ≤ delay * 2 ^ attempt
le_power zero delay = omega arith
le_power (suc attempt) delay =
    omega (arith, le_power attempt (delay * 2), double_power delay attempt)

at_most-reached :
    (ceiling : ℤ) (d d' : ℕ)
    → leb_ℤ ceiling (pos d) ≡ true
    → d ≤ d'
    → at_most ceiling (pos d) ≡ at_most ceiling (pos d')
at_most-reached (pos c) d d' h le = ground arith
at_most-reached (negsuc c) d d' h le = ground arith

at_most-doubled :
    (attempt delay : ℕ) (ceiling : ℤ)
    → at_most ceiling (pos (doubled attempt delay ceiling))
      ≡ at_most ceiling (pos (delay * 2 ^ attempt))
unfolding doubled
at_most-doubled zero delay ceiling =
    let same : delay ≡ delay * 2 ^ 0 = omega arith in ap (λ d. at_most ceiling (pos d)) same
at_most-doubled (suc attempt) delay ceiling = elim (Bool-cases (leb_ℤ ceiling (pos delay))) [
  | inl e ↦
      ap (λ d. at_most ceiling (pos d)) (stops e)
      ∙ at_most-reached ceiling delay (delay * 2 ^ suc attempt) e (le_power (suc attempt) delay)
  | inr e ↦
      ap (λ d. at_most ceiling (pos d)) (goes_on e)
      ∙ at_most-doubled attempt (delay * 2) ceiling
      ∙ ap (λ d. at_most ceiling (pos d)) (double_power delay attempt)
]
  where
    stops : leb_ℤ ceiling (pos delay) ≡ true → doubled (suc attempt) delay ceiling ≡ delay
    stops e = simp e

    goes_on :
        leb_ℤ ceiling (pos delay) ≡ false
        → doubled (suc attempt) delay ceiling ≡ doubled attempt (delay * 2) ceiling
    goes_on e = simp e

negative : (n : ℕ) → leb_ℤ (negsuc n) (pos 0) ≡ true
negative n = ground arith

positive : (n : ℕ) → leb_ℤ (pos (suc n)) (pos 0) ≡ false
positive n = ground arith

-- For a positive first delay, the delay is the first one doubled once for each attempt, but at most the
-- ceiling; otherwise it is zero.
pub reconnect_backoff-min :
    (attempt : ℕ) (initial ceiling : ℤ)
    → reconnect_backoff attempt initial ceiling ≡ (
        if leb_ℤ initial (pos 0)
        then pos 0
        else at_most ceiling (pos (pos_part initial * 2 ^ attempt)))
unfolding reconnect_backoff
reconnect_backoff-min attempt (negsuc n) ceiling = rw (negative n) refl
reconnect_backoff-min attempt (pos zero) ceiling = refl
reconnect_backoff-min attempt (pos (suc n)) ceiling =
    rw (positive n) (at_most-doubled attempt (suc n) ceiling)
