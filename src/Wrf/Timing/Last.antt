-- ===== src/Wrf/Timing/Last.antt =====
-- What a step that `get_current_step` (models/wrf/wrf_control.cpp) returns says of the log.
use cpdn_control.Prelude.{
  ℕ, ◌+◌, ◌*◌, ◌/◌, ◌%◌, ◌≤ℤ◌, ◌≡◌, ◌≢◌, refl, sym, ap, ◌∙◌, true, Option, none, some, List, [],
  ◌∷◌, ◌++◌, pos_part, All, ◌⊎◌, inl, inr, ℤ, pos, negsuc, arith,
}
use cpdn_control.Text.{Bytes}
use cpdn_control.Calendar.{DateTime, datetime_to_absolute_seconds, is_valid_datetime}
use cpdn_control.Calendar.Seconds.{duration-valid, whole_steps}
use cpdn_control.Wrf.Timing.{
  on_domain1, newer, step_at, with_step, parse_wrf_timing_line, domain1_timestamp, latest_timestamp,
  step_of_seconds, get_current_step,
}

-- A line that is about no step of the outermost domain.
abbrev IsElse : Bytes → Type 0
IsElse line = (d : DateTime) → parse_wrf_timing_line line ≢ some (pos 1, d)

-- The last of the lines about a step of the outermost domain gives the date `now`.
pub record IsLastLogged (lines : List Bytes) (now : DateTime) : Type 0 where
  pub before : List Bytes
  pub line : Bytes
  pub after : List Bytes
  pub splits : lines ≡ before ++ line ∷ after
  pub read : parse_wrf_timing_line line ≡ some (pos 1, now)
  pub last : All IsElse after

-- What a step that was read from the log means.
pub record IsStep (timestep : ℕ) (start : DateTime) (lines : List Bytes) (total_steps step : ℤ)
    : Type 0 where
  pub now : DateTime
  pub count : ℕ
  pub logged : IsLastLogged lines now
  pub counted : step ≡ pos count
  pub valid : is_valid_datetime now ≡ true
  pub later :
      datetime_to_absolute_seconds now ≡ datetime_to_absolute_seconds start + count * timestep
  pub within : step ≤ℤ total_steps

on_domain1-some :
    (p : Option (ℤ × DateTime)) (d : DateTime) → on_domain1 p ≡ some d → p ≡ some (pos 1, d)
on_domain1-some none d e = cc
on_domain1-some (some (domain, t)) d e = ground (arith, e)

on_domain1-none :
    (p : Option (ℤ × DateTime)) (d : DateTime) → on_domain1 p ≡ none → p ≢ some (pos 1, d)
on_domain1-none none d e q = cc
on_domain1-none (some (domain, t)) d e q = ground (arith, e, q)

domain1_eq : (line : Bytes) → on_domain1 (parse_wrf_timing_line line) ≡ domain1_timestamp line
unfolding domain1_timestamp
domain1_eq line = refl

latest_timestamp-IsLastLogged :
    (latest : Option DateTime) (lines : List Bytes) (now : DateTime)
    → latest_timestamp latest lines ≡ some now
    → (All IsElse lines × (latest ≡ some now)) ⊎ IsLastLogged lines now
unfolding latest_timestamp
latest_timestamp-IsLastLogged latest [] now e = inl (tt, e)
latest_timestamp-IsLastLogged latest (line ∷ lines) now e =
    go (domain1_timestamp line) refl
      (latest_timestamp-IsLastLogged (newer latest (domain1_timestamp line)) lines now e)
  where
    go :
        (t : Option DateTime)
        → domain1_timestamp line ≡ t
        → (All IsElse lines × (newer latest (domain1_timestamp line) ≡ some now))
          ⊎ IsLastLogged lines now
        → (All IsElse (line ∷ lines) × (latest ≡ some now)) ⊎ IsLastLogged (line ∷ lines) now
    go t q (inr h) = inr record {
      before = line ∷ h.before;
      line = h.line;
      after = h.after;
      splits = ap (λ s. line ∷ s) h.splits;
      read = h.read;
      last = h.last;
    }
    go none q (inl (off, k)) = inl (
      (λ d. on_domain1-none (parse_wrf_timing_line line) d (domain1_eq line ∙ q), off),
      sym (ap (newer latest) q) ∙ k,
    )
    go (some d) q (inl (off, k)) = inr record {
      before = [];
      line = line;
      after = lines;
      splits = refl;
      read = on_domain1-some _ now (domain1_eq line ∙ q ∙ sym (ap (newer latest) q) ∙ k);
      last = off;
    }

step_of_seconds-whole :
    (timestep : ℕ) (total_steps z : ℤ) (step : ℕ)
    → step_of_seconds timestep total_steps z ≡ some step
    → (n : ℕ) × (z ≡ pos n) × (n % timestep ≡ 0) × (step ≡ n / timestep) × (pos step ≤ℤ total_steps)
unfolding step_of_seconds
step_of_seconds-whole timestep total_steps (negsuc n) step h = absurd (ground (arith, h))
step_of_seconds-whole timestep total_steps (pos n) step h =
    (n, refl, ground arith, ground arith, ground arith)

-- A step that is read from the log is what the log's last record of the outermost domain says: it is
-- not above the number of steps of the run, and the date of the last line that is a timing line of
-- domain 1 is valid and lies that many time steps after the start. Whether the line is from before a
-- restart is not asked.
pub get_current_step-IsStep :
    (timestep_seconds : ℤ) (start : DateTime) (lines : List Bytes) (total_steps step : ℤ)
    → get_current_step timestep_seconds start (some lines) total_steps ≡ (true, step)
    → IsStep (pos_part timestep_seconds) start lines total_steps step
unfolding get_current_step
get_current_step-IsStep timestep_seconds start lines total_steps step h =
    dated (latest_timestamp none lines) refl (ground (arith, h))
  where
    last_of :
        (now : DateTime)
        → (All IsElse lines × (◌≡◌ {A = Option DateTime} none (some now))) ⊎ IsLastLogged lines now
        → IsLastLogged lines now
    last_of now (inl (off, k)) = absurd cc
    last_of now (inr h) = h

    counted :
        (now : DateTime) (answer : Option ℕ)
        → latest_timestamp none lines ≡ some now
        → step_at (pos_part timestep_seconds) start total_steps (some now) ≡ answer
        → with_step answer ≡ (true, step)
        → IsStep (pos_part timestep_seconds) start lines total_steps step
    counted now none e k p = absurd cc
    counted now (some count) e k p =
        let (n, elapsed, exact, quotient, within) = step_of_seconds-whole _ total_steps _ count k in
        let (_, valid, seconds) = duration-valid start now n elapsed in
        record {
          now = now;
          count = count;
          logged = last_of now (latest_timestamp-IsLastLogged none lines now e);
          counted = cc;
          valid = valid;
          later = omega (
            arith,
            seconds,
            whole_steps n (pos_part timestep_seconds) exact,
            ap (λ q. q * pos_part timestep_seconds) quotient,
          );
          within = ground (arith, p, within);
        }

    dated :
        (o : Option DateTime)
        → latest_timestamp none lines ≡ o
        → with_step (step_at (pos_part timestep_seconds) start total_steps o) ≡ (true, step)
        → IsStep (pos_part timestep_seconds) start lines total_steps step
    dated none e k = absurd cc
    dated (some now) e k = counted now _ e refl k
