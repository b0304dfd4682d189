-- ===== src/Any/Score.antt =====
-- src/any/score_state.rs and the score states of the four modes. Counts are `u32`.
pub mod Convert
pub mod Accuracy
use old_ccv3_pp.Base.{
  ℕ, ◌+◌, ◌*◌, Bool, true, false, not, ◌==◌, if◌then◌else◌, add32, mul32, from_bool, min,
}
use old_ccv3_pp.Float.{Floats}
use old_ccv3_pp.Any.Mode.{GameMode, is_mode}

pub record ScoreState : Type 0 where
  pub max_combo : ℕ
  pub osu_large_tick_hits : ℕ
  pub slider_end_hits : ℕ
  pub n_geki : ℕ
  pub n_katu : ℕ
  pub n300 : ℕ
  pub n100 : ℕ
  pub n50 : ℕ
  pub misses : ℕ

pub record OsuScoreState : Type 0 where
  pub max_combo : ℕ
  pub large_tick_hits : ℕ
  pub slider_end_hits : ℕ
  pub n300 : ℕ
  pub n100 : ℕ
  pub n50 : ℕ
  pub misses : ℕ

pub record TaikoScoreState : Type 0 where
  pub max_combo : ℕ
  pub n300 : ℕ
  pub n100 : ℕ
  pub misses : ℕ

pub record CatchScoreState : Type 0 where
  pub max_combo : ℕ
  pub fruits : ℕ
  pub droplets : ℕ
  pub tiny_droplets : ℕ
  pub tiny_droplet_misses : ℕ
  pub misses : ℕ

pub record ManiaScoreState : Type 0 where
  pub n320 : ℕ
  pub n300 : ℕ
  pub n200 : ℕ
  pub n100 : ℕ
  pub n50 : ℕ
  pub misses : ℕ

-- `ScoreState::total_hits`
pub total_hits : ScoreState → GameMode → ℕ
total_hits s mode =
    let amount = add32 (add32 s.n300 s.n100) s.misses in
    if is_mode mode GameMode.taiko
    then amount
    else (let amount = add32 amount s.n50 in
        if is_mode mode GameMode.osu
        then amount
        else (let amount = add32 amount s.n_katu in
            add32 amount (mul32 (from_bool (not (is_mode mode GameMode.catch))) s.n_geki)))

pub osu_total_hits : OsuScoreState → ℕ
osu_total_hits s = add32 (add32 (add32 s.n300 s.n100) s.n50) s.misses

pub taiko_total_hits : TaikoScoreState → ℕ
taiko_total_hits s = add32 (add32 s.n300 s.n100) s.misses

pub catch_total_hits : CatchScoreState → ℕ
catch_total_hits s =
    add32 (add32 (add32 (add32 s.fruits s.droplets) s.tiny_droplets) s.tiny_droplet_misses) s.misses

pub mania_total_hits : ManiaScoreState → ℕ
mania_total_hits s =
    add32 (add32 (add32 (add32 (add32 s.n320 s.n300) s.n200) s.n100) s.n50) s.misses

-- the `From` conversions
pub to_osu : ScoreState → OsuScoreState
to_osu s = record {
  max_combo = s.max_combo;
  large_tick_hits = s.osu_large_tick_hits;
  slider_end_hits = s.slider_end_hits;
  n300 = s.n300;
  n100 = s.n100;
  n50 = s.n50;
  misses = s.misses;
}

pub to_taiko : ScoreState → TaikoScoreState
to_taiko s = record { max_combo = s.max_combo; n300 = s.n300; n100 = s.n100; misses = s.misses }

pub to_catch : ScoreState → CatchScoreState
to_catch s = record {
  max_combo = s.max_combo;
  fruits = s.n300;
  droplets = s.n100;
  tiny_droplets = s.n50;
  tiny_droplet_misses = s.n_katu;
  misses = s.misses;
}

pub to_mania : ScoreState → ManiaScoreState
to_mania s = record {
  n320 = s.n_geki;
  n300 = s.n300;
  n200 = s.n_katu;
  n100 = s.n100;
  n50 = s.n50;
  misses = s.misses;
}

pub of_osu : OsuScoreState → ScoreState
of_osu s = record {
  max_combo = s.max_combo;
  osu_large_tick_hits = s.large_tick_hits;
  slider_end_hits = s.slider_end_hits;
  n_geki = 0;
  n_katu = 0;
  n300 = s.n300;
  n100 = s.n100;
  n50 = s.n50;
  misses = s.misses;
}

pub of_taiko : TaikoScoreState → ScoreState
of_taiko s = record {
  max_combo = s.max_combo;
  osu_large_tick_hits = 0;
  slider_end_hits = 0;
  n_geki = 0;
  n_katu = 0;
  n300 = s.n300;
  n100 = s.n100;
  n50 = 0;
  misses = s.misses;
}

pub of_catch : CatchScoreState → ScoreState
of_catch s = record {
  max_combo = s.max_combo;
  osu_large_tick_hits = 0;
  slider_end_hits = 0;
  n_geki = 0;
  n_katu = s.tiny_droplet_misses;
  n300 = s.fruits;
  n100 = s.droplets;
  n50 = s.tiny_droplets;
  misses = s.misses;
}

pub of_mania : ManiaScoreState → ScoreState
of_mania s = record {
  max_combo = 0;
  osu_large_tick_hits = 0;
  slider_end_hits = 0;
  n_geki = s.n320;
  n_katu = s.n200;
  n300 = s.n300;
  n100 = s.n100;
  n50 = s.n50;
  misses = s.misses;
}

-- `OsuScoreOrigin`
pub data OsuScoreOrigin : Type 0 where
  stable : OsuScoreOrigin
  with_slider_acc : ℕ → ℕ → OsuScoreOrigin
  without_slider_acc : ℕ → ℕ → OsuScoreOrigin

-- The slider part of numerator and denominator, given the slider end hits and large tick hits.
abbrev pub slider_parts : OsuScoreOrigin → ℕ → ℕ → ℕ × ℕ
slider_parts stable ends ticks = (0, 0)
slider_parts (with_slider_acc max_large_ticks max_slider_ends) ends ticks = (
  add32 (mul32 150 (min ends max_slider_ends)) (mul32 30 (min ticks max_large_ticks)),
  add32 (mul32 150 max_slider_ends) (mul32 30 max_large_ticks),
)
slider_parts (without_slider_acc max_large_ticks max_slider_ends) ends ticks = (
  add32 (mul32 30 (min ticks max_large_ticks)) (mul32 10 (min ends max_slider_ends)),
  add32 (mul32 30 max_large_ticks) (mul32 10 max_slider_ends),
)

-- Numerator and denominator of `OsuScoreState::accuracy`
unfoldable pub osu_fraction : OsuScoreState → OsuScoreOrigin → ℕ × ℕ
osu_fraction s origin =
    let (n, d) = slider_parts origin s.slider_end_hits s.large_tick_hits in
    (
      add32 (add32 (add32 (mul32 300 s.n300) (mul32 100 s.n100)) (mul32 50 s.n50)) n,
      add32 (mul32 300 (add32 (add32 (add32 s.n300 s.n100) s.n50) s.misses)) d,
    )

module _ (f : Floats) where
  open f use {F64, div, from_u32, decimal}

  unfoldable pub osu_accuracy : OsuScoreState → OsuScoreOrigin → F64
  unfolding osu_fraction
  osu_accuracy s origin =
      let (numerator, denominator) = osu_fraction s origin in
      if denominator == 0 then decimal 0 0 else div (from_u32 numerator) (from_u32 denominator)

  unfoldable pub taiko_accuracy : TaikoScoreState → F64
  unfolding taiko_total_hits
  taiko_accuracy s =
      let hits = taiko_total_hits s in
      if hits == 0
      then decimal 0 0
      else div (from_u32 (add32 (mul32 2 s.n300) s.n100)) (from_u32 (mul32 2 hits))

  unfoldable pub catch_accuracy : CatchScoreState → F64
  unfolding catch_total_hits
  catch_accuracy s =
      let hits = catch_total_hits s in
      if hits == 0
      then decimal 0 0
      else div (from_u32 (add32 (add32 s.fruits s.droplets) s.tiny_droplets)) (from_u32 hits)

  unfoldable pub mania_accuracy : ManiaScoreState → F64
  unfolding mania_total_hits
  mania_accuracy s =
      let hits = mania_total_hits s in
      if hits == 0
      then decimal 0 0
      else div
          (from_u32 (
            add32 (add32 (add32 (mul32 6 (add32 s.n320 s.n300)) (mul32 4 s.n200)) (mul32 2 s.n100))
              s.n50))
          (from_u32 (mul32 6 hits))
