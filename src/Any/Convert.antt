-- ===== src/Any/Convert.antt =====
-- src/model/beatmap/mod.rs: converting a map to another mode. How the conversions change the objects
-- of a map (src/taiko/convert.rs, src/mania/convert) is a parameter.
use old_ccv3_pp.Base.{
  Bool, true, false, Option, none, some, if◌then◌else◌, ◌≡◌, refl, inl, inr, Bool-cases, ◌⊎◌, arith,
}
use old_ccv3_pp.Any.Mode.{
  GameMode, osu, taiko, catch, mania, ConvertError, Result, ok, err, is_mode,
}

-- `Beatmap`, with all but its mode in `content`
pub record Beatmap (Content : Type 0) : Type 0 where
  pub mode : GameMode
  pub is_convert : Bool
  pub content : Content

-- What `convert` of taiko and mania does to the content; the one of catch leaves it.
pub record Conversions (Content GameMods : Type 0) : Type 0 where
  pub to_taiko : Content → Content
  pub to_mania : GameMods → Content → Content

pub is_mode-eq : (a b : GameMode) → is_mode a b ≡ true → a ≡ b
is_mode-eq osu osu e = refl
is_mode-eq osu taiko e = ground (arith, e)
is_mode-eq osu catch e = ground (arith, e)
is_mode-eq osu mania e = ground (arith, e)
is_mode-eq taiko osu e = ground (arith, e)
is_mode-eq taiko taiko e = refl
is_mode-eq taiko catch e = ground (arith, e)
is_mode-eq taiko mania e = ground (arith, e)
is_mode-eq catch osu e = ground (arith, e)
is_mode-eq catch taiko e = ground (arith, e)
is_mode-eq catch catch e = refl
is_mode-eq catch mania e = ground (arith, e)
is_mode-eq mania osu e = ground (arith, e)
is_mode-eq mania taiko e = ground (arith, e)
is_mode-eq mania catch e = ground (arith, e)
is_mode-eq mania mania e = refl

module _ {Content GameMods : Type 0} (c : Conversions Content GameMods) where
  -- `none` is the `unreachable!()`; the map of an error is the one that was given.
  unfoldable pub convert_mut :
      Beatmap Content → GameMode → GameMods → Option (Result (Beatmap Content))
  convert_mut map mode mods =
      if is_mode map.mode mode
      then some (ok map)
      else if map.is_convert
      then some (err ConvertError.already_converted)
      else if is_mode map.mode GameMode.osu
      then elim mode [
        | osu ↦ none
        | taiko ↦ some (
            ok (record {
              mode = GameMode.taiko;
              is_convert = true;
              content = c.to_taiko map.content;
            }))
        | catch ↦
            some (ok (record { mode = GameMode.catch; is_convert = true; content = map.content }))
        | mania ↦ some (
            ok (record {
              mode = GameMode.mania;
              is_convert = true;
              content = c.to_mania mods map.content;
            }))
      ]
      else some (err (ConvertError.convert map.mode mode))

  -- The map has the mode afterwards. It is as before or was converted from one of osu!, just once; an
  -- error says which of these it cannot be.
  abbrev pub Converted : Beatmap Content → GameMode → Result (Beatmap Content) → Type 0
  Converted map mode (ok map') =
      (map'.mode ≡ mode)
      × ((map' ≡ map)
          ⊎ ((map.mode ≡ GameMode.osu) × (map.is_convert ≡ false) × (map'.is_convert ≡ true)))
  Converted map mode (err ConvertError.already_converted) =
      (is_mode map.mode mode ≡ false) × (map.is_convert ≡ true)
  Converted map mode (err (ConvertError.convert from to)) =
      (from ≡ map.mode)
      × (to ≡ mode)
      × (is_mode map.mode mode ≡ false)
      × (is_mode map.mode GameMode.osu ≡ false)
      × (map.is_convert ≡ false)

  -- The last match, where the mode is another one and the map is one of osu!
  Converted-osu :
      (map : Beatmap Content) (mode : GameMode) (mods : GameMods)
      → is_mode map.mode mode ≡ false
      → map.is_convert ≡ false
      → is_mode map.mode GameMode.osu ≡ true
      → (r : Result (Beatmap Content)) × (convert_mut map mode mods ≡ some r) × Converted map mode r
  unfolding convert_mut
  Converted-osu map osu mods e b o = ground (arith, e, o)
  Converted-osu map taiko mods e b o = (
    ok (record { mode = taiko; is_convert = true; content = c.to_taiko map.content }),
    rw (e, b, o, convert_mut) refl,
    (refl, inr (is_mode-eq map.mode osu o, b, refl)),
  )
  Converted-osu map catch mods e b o = (
    ok (record { mode = catch; is_convert = true; content = map.content }),
    rw (e, b, o, convert_mut) refl,
    (refl, inr (is_mode-eq map.mode osu o, b, refl)),
  )
  Converted-osu map mania mods e b o = (
    ok (record { mode = mania; is_convert = true; content = c.to_mania mods map.content }),
    rw (e, b, o, convert_mut) refl,
    (refl, inr (is_mode-eq map.mode osu o, b, refl)),
  )

  -- Converting a map never reaches the `unreachable!()`. It gives a map of the mode, which is the
  -- same map or was converted from one of osu! that was not converted before. The error says that
  -- the map was converted before, or names its mode, which is not osu!, and the mode that was
  -- asked for.
  pub convert_mut-Converted :
      (map : Beatmap Content) (mode : GameMode) (mods : GameMods)
      → (r : Result (Beatmap Content)) × (convert_mut map mode mods ≡ some r) × Converted map mode r
  unfolding convert_mut
  convert_mut-Converted map mode mods = elim (Bool-cases (is_mode map.mode mode)) [
    | inl e ↦ (ok map, rw (e, convert_mut) refl, (is_mode-eq map.mode mode e, inl refl))
    | inr e ↦ elim (Bool-cases map.is_convert) [
      | inl b ↦ (err ConvertError.already_converted, rw (e, b, convert_mut) refl, (e, b))
      | inr b ↦ elim (Bool-cases (is_mode map.mode GameMode.osu)) [
        | inl o ↦ Converted-osu map mode mods e b o
        | inr o ↦ (
          err (ConvertError.convert map.mode mode),
          rw (e, b, o, convert_mut) refl,
          (refl, refl, e, o, b),
        )
      ]
    ]
  ]
