-- ===== src/Trickle/Frequency.antt =====
-- `get_trickle_frequency` (api/trickle_handler.cpp).
use cpdn_control.Prelude.{ℕ, ◌*◌, ◌/◌, ◌≤◌, ◌≡◌, max, some, pos, arith}
use cpdn_control.Trickle.{get_trickle_frequency}
use native.Mathlib.Nat.{le-div_iff_mul-le}

-- For a timestep of up to a day, the frequency is the greater of 6 % of the steps and the steps of
-- a model day, and it is positive.
pub get_trickle_frequency-max :
    (timestep total_timesteps : ℕ)
    → 1 ≤ timestep
    → timestep ≤ 86400
    → (get_trickle_frequency (pos timestep) (pos total_timesteps)
        ≡ some (pos (max (total_timesteps * 6 / 100) (86400 / timestep))))
      × (1 ≤ max (total_timesteps * 6 / 100) (86400 / timestep))
unfolding get_trickle_frequency
get_trickle_frequency-max timestep total_timesteps h1 h2 =
    let d : (1 ≤ 86400 / timestep) = (le-div_iff_mul-le h1).1 (omega arith) in
    (ground (arith, d), omega (arith, d))
