-- ===== src/Util/MapOrAttrs.antt =====
-- src/util/map_or_attrs.rs: a beatmap, or difficulty attributes that were calculated before.
use mathlib.Core.Path.{subst}
use old_ccv3_pp.Base.{◌≡◌, refl, sym, ap, ◌∙◌}
use old_ccv3_pp.Any.Mode.{Result, ok, err, ◌>>=◌, ok-injective}

pub data MapOrAttrs (Map Attrs : Type 0) : Type 0 where
  of_map : Map → MapOrAttrs Map Attrs
  of_attrs : Attrs → MapOrAttrs Map Attrs

module _ {Map Attrs : Type 0} where
  -- `insert_attrs`, with what the reference that it returns points to; attributes are not overwritten.
  unfoldable pub insert_attrs : MapOrAttrs Map Attrs → Attrs → MapOrAttrs Map Attrs × Attrs
  insert_attrs (of_map map) attrs = (of_attrs attrs, attrs)
  insert_attrs (of_attrs old) attrs = (of_attrs old, old)

  -- The head of every `generate_state`: a map's attributes are calculated and stored.
  unfoldable pub resolve :
      (Map → Result Attrs) → MapOrAttrs Map Attrs → Result (MapOrAttrs Map Attrs × Attrs)
  unfolding insert_attrs
  resolve calculate_for_mode (of_map map) = do
    attrs ← calculate_for_mode map
    ok (insert_attrs (of_map map) attrs)
  resolve calculate_for_mode (of_attrs attrs) = ok (of_attrs attrs, attrs)

  resolve_calculated :
      (r : Result Attrs) (mo : MapOrAttrs Map Attrs) (attrs : Attrs)
      → ◌≡◌ {A = Result (MapOrAttrs Map Attrs × Attrs)}
          (r >>= λ a. ok (of_attrs a, a))
          (ok (mo, attrs))
      → mo ≡ of_attrs attrs
  resolve_calculated (ok a) mo attrs e =
      let q = ok-injective e in
      sym (ap (λ (p : MapOrAttrs Map Attrs × Attrs). p.0) q)
      ∙ ap of_attrs (ap (λ (p : MapOrAttrs Map Attrs × Attrs). p.1) q)
  resolve_calculated (err x) mo attrs e = cc

  -- What is resolved stays resolved, with the same attributes.
  pub resolve-again :
      (c d : Map → Result Attrs) (x mo : MapOrAttrs Map Attrs) (attrs : Attrs)
      → resolve c x ≡ ok (mo, attrs)
      → resolve d mo ≡ ok (mo, attrs)
  unfolding resolve insert_attrs
  resolve-again c d (of_map map) mo attrs e = rw (resolve_calculated (c map) mo attrs e) refl
  resolve-again c d (of_attrs a) mo attrs e =
      subst (λ (p : MapOrAttrs Map Attrs × Attrs). resolve d p.0 ≡ ok p) (ok-injective e) refl
