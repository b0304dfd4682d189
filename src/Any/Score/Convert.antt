-- ===== src/Any/Score/Convert.antt =====
-- The conversions between the score states of the modes and the general one.
use old_ccv3_pp.Base.{◌≡◌, refl, arith}
use old_ccv3_pp.Any.Mode.{GameMode}
use old_ccv3_pp.Any.Score.{
  ScoreState, OsuScoreState, TaikoScoreState, CatchScoreState, ManiaScoreState, total_hits,
  osu_total_hits, taiko_total_hits, catch_total_hits, mania_total_hits, to_osu, to_taiko, to_catch,
  to_mania, of_osu, of_taiko, of_catch, of_mania,
}

-- The state of a mode survives the way through the general state, for each mode.
pub to_of_states :
    ((s : OsuScoreState) → to_osu (of_osu s) ≡ s)
    × ((s : TaikoScoreState) → to_taiko (of_taiko s) ≡ s)
    × ((s : CatchScoreState) → to_catch (of_catch s) ≡ s)
    × ((s : ManiaScoreState) → to_mania (of_mania s) ≡ s)
unfolding to_osu of_osu to_taiko of_taiko to_catch of_catch to_mania of_mania
to_of_states = (λ s. refl, λ s. refl, λ s. refl, λ s. refl)

-- The general state counts the hits of each mode as the mode's own state does.
pub total_hits-to :
    (s : ScoreState)
    → (total_hits s GameMode.osu ≡ osu_total_hits (to_osu s))
      × (total_hits s GameMode.taiko ≡ taiko_total_hits (to_taiko s))
      × (total_hits s GameMode.catch ≡ catch_total_hits (to_catch s))
      × (total_hits s GameMode.mania ≡ mania_total_hits (to_mania s))
unfolding total_hits osu_total_hits taiko_total_hits catch_total_hits mania_total_hits to_osu
    to_taiko to_catch to_mania
total_hits-to s = (omega arith, omega arith, omega arith, omega arith)
