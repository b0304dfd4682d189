-- ===== src/Any/Difficulty/Inspect.antt =====
-- Round trip between `Difficulty` and `InspectDifficulty`, for settings that were built by the setters.
use mathlib.Core.Option
use old_ccv3_pp.Base.{ℕ, Bool, Option, none, some, ◌≡◌, refl, ap, ◌∙◌}
use old_ccv3_pp.Float.{Floats, FloatLaws}
use old_ccv3_pp.Any.Difficulty.{
  ModsDependent, Mods, Difficulty, new, set_mods, set_passed_objects, set_clock_rate, clamped,
  set_ar, set_cs, set_hp, set_od, set_hardrock_offsets, set_lazer, inspect, if_some,
  into_difficulty,
}

abbrev pub OptAll : {A : Type 0} → (A → Type 0) → Option A → Type 0
OptAll P none = Unit
OptAll P (some a) = P a

module _ (f : Floats) (m : Mods (f.F64)) where
  open f use {F64, F32, clamp, clamp32, decimal, to_bits, from_bits}
  open m use {GameMods}

  -- Calls of the setters, on the settings that `Difficulty::new` gives.
  pub data Built : Difficulty f m → Type 0 where
    start : Built (new f m)
    with_mods : {d : Difficulty f m} → Built d → (x : GameMods) → Built (set_mods f m d x)
    with_passed_objects :
        {d : Difficulty f m} → Built d → (n : ℕ) → Built (set_passed_objects f m d n)
    with_clock_rate : {d : Difficulty f m} → Built d → (x : F64) → Built (set_clock_rate f m d x)
    with_ar : {d : Difficulty f m} → Built d → (x : F32) (b : Bool) → Built (set_ar f m d x b)
    with_cs : {d : Difficulty f m} → Built d → (x : F32) (b : Bool) → Built (set_cs f m d x b)
    with_hp : {d : Difficulty f m} → Built d → (x : F32) (b : Bool) → Built (set_hp f m d x b)
    with_od : {d : Difficulty f m} → Built d → (x : F32) (b : Bool) → Built (set_od f m d x b)
    with_hardrock_offsets :
        {d : Difficulty f m} → Built d → (b : Bool) → Built (set_hardrock_offsets f m d b)
    with_lazer : {d : Difficulty f m} → Built d → (b : Bool) → Built (set_lazer f m d b)

  abbrev IsRate : ℕ → Type 0
  IsRate b = to_bits (clamp (from_bits b) (decimal 1 2) (decimal 1000 1)) ≡ b

  abbrev IsClamped : ModsDependent F32 → Type 0
  IsClamped a = clamp32 (a.value) 20 20 ≡ a.value

  -- The values that the setters leave.
  pub record IsNormal (d : Difficulty f m) : Type 0 where
    pub rate : OptAll IsRate d.clock_rate
    pub ar : OptAll IsClamped d.ar
    pub cs : OptAll IsClamped d.cs
    pub hp : OptAll IsClamped d.hp
    pub od : OptAll IsClamped d.od

  module _ (laws : FloatLaws f) where
    clamped_lem : (x : F32) (b : Bool) → IsClamped (clamped f m x b)
    unfolding clamped
    clamped_lem x b = laws.clamp32-clamp32 x 20 20

    rate_lem : (x : F64) → IsRate (to_bits (clamp x (decimal 1 2) (decimal 1000 1)))
    rate_lem x =
        ap (λ y. to_bits (clamp y (decimal 1 2) (decimal 1000 1))) (laws.from_bits-to_bits _)
        ∙ ap to_bits (laws.clamp-clamp x (decimal 1 2) (decimal 1000 1))

    pub Built-IsNormal : {d : Difficulty f m} → Built d → IsNormal d
    unfolding new set_mods set_passed_objects set_clock_rate set_ar set_cs set_hp set_od
        set_hardrock_offsets set_lazer
    Built-IsNormal start = record { rate = tt; ar = tt; cs = tt; hp = tt; od = tt }
    Built-IsNormal (with_mods b x) =
        let n = Built-IsNormal b in
        record { rate = n.rate; ar = n.ar; cs = n.cs; hp = n.hp; od = n.od }
    Built-IsNormal (with_passed_objects b x) =
        let n = Built-IsNormal b in
        record { rate = n.rate; ar = n.ar; cs = n.cs; hp = n.hp; od = n.od }
    Built-IsNormal (with_clock_rate b x) =
        let n = Built-IsNormal b in
        record { rate = rate_lem x; ar = n.ar; cs = n.cs; hp = n.hp; od = n.od }
    Built-IsNormal (with_ar b x w) =
        let n = Built-IsNormal b in
        record { rate = n.rate; ar = clamped_lem x w; cs = n.cs; hp = n.hp; od = n.od }
    Built-IsNormal (with_cs b x w) =
        let n = Built-IsNormal b in
        record { rate = n.rate; ar = n.ar; cs = clamped_lem x w; hp = n.hp; od = n.od }
    Built-IsNormal (with_hp b x w) =
        let n = Built-IsNormal b in
        record { rate = n.rate; ar = n.ar; cs = n.cs; hp = clamped_lem x w; od = n.od }
    Built-IsNormal (with_od b x w) =
        let n = Built-IsNormal b in
        record { rate = n.rate; ar = n.ar; cs = n.cs; hp = n.hp; od = clamped_lem x w }
    Built-IsNormal (with_hardrock_offsets b x) =
        let n = Built-IsNormal b in
        record { rate = n.rate; ar = n.ar; cs = n.cs; hp = n.hp; od = n.od }
    Built-IsNormal (with_lazer b x) =
        let n = Built-IsNormal b in
        record { rate = n.rate; ar = n.ar; cs = n.cs; hp = n.hp; od = n.od }

  abbrev full :
      GameMods
      → Option ℕ
      → Option ℕ
      → Option (ModsDependent F32)
      → Option (ModsDependent F32)
      → Option (ModsDependent F32)
      → Option (ModsDependent F32)
      → Option Bool
      → Option Bool
      → Difficulty f m
  full md po cr ar cs hp od ho lz = record {
    mods = md;
    passed_objects = po;
    clock_rate = cr;
    ar = ar;
    cs = cs;
    hp = hp;
    od = od;
    hardrock_offsets = ho;
    lazer = lz;
  }

  step_po :
      (md : GameMods) (po : Option ℕ)
      → if_some f m po (set_passed_objects f m) (full md none none none none none none none none)
        ≡ full md po none none none none none none none
  unfolding set_passed_objects
  step_po md none = refl
  step_po md (some x) = refl

  step_cr :
      (md : GameMods) (po : Option ℕ) (cr : Option ℕ)
      → OptAll IsRate cr
      → if_some f m cr
          (λ d b. set_clock_rate f m d (from_bits b))
          (full md po none none none none none none none)
        ≡ full md po cr none none none none none none
  unfolding set_clock_rate
  step_cr md po none h = refl
  step_cr md po (some b) h = ap (λ x. full md po (some x) none none none none none none) h

  step_ar :
      (md : GameMods) (po : Option ℕ) (cr : Option ℕ) (ar : Option (ModsDependent F32))
      → OptAll IsClamped ar
      → if_some f m ar
          (λ d a. set_ar f m d (a.value) (a.with_mods))
          (full md po cr none none none none none none)
        ≡ full md po cr ar none none none none none
  unfolding set_ar clamped
  step_ar md po cr none h = refl
  step_ar md po cr (some a) h =
      ap
        (λ x.
          full md po cr (some (record { value = x; with_mods = a.with_mods })) none none none none
            none)
        h

  step_cs :
      (md : GameMods) (po : Option ℕ) (cr : Option ℕ) (ar : Option (ModsDependent F32))
      (cs : Option (ModsDependent F32))
      → OptAll IsClamped cs
      → if_some f m cs
          (λ d a. set_cs f m d (a.value) (a.with_mods))
          (full md po cr ar none none none none none)
        ≡ full md po cr ar cs none none none none
  unfolding set_cs clamped
  step_cs md po cr ar none h = refl
  step_cs md po cr ar (some a) h =
      ap
        (λ x.
          full md po cr ar (some (record { value = x; with_mods = a.with_mods })) none none none
            none)
        h

  step_hp :
      (md : GameMods) (po : Option ℕ) (cr : Option ℕ) (ar : Option (ModsDependent F32))
      (cs : Option (ModsDependent F32)) (hp : Option (ModsDependent F32))
      → OptAll IsClamped hp
      → if_some f m hp
          (λ d a. set_hp f m d (a.value) (a.with_mods))
          (full md po cr ar cs none none none none)
        ≡ full md po cr ar cs hp none none none
  unfolding set_hp clamped
  step_hp md po cr ar cs none h = refl
  step_hp md po cr ar cs (some a) h =
      ap
        (λ x.
          full md po cr ar cs (some (record { value = x; with_mods = a.with_mods })) none none none)
        h

  step_od :
      (md : GameMods) (po : Option ℕ) (cr : Option ℕ) (ar : Option (ModsDependent F32))
      (cs : Option (ModsDependent F32)) (hp : Option (ModsDependent F32))
      (od : Option (ModsDependent F32))
      → OptAll IsClamped od
      → if_some f m od
          (λ d a. set_od f m d (a.value) (a.with_mods))
          (full md po cr ar cs hp none none none)
        ≡ full md po cr ar cs hp od none none
  unfolding set_od clamped
  step_od md po cr ar cs hp none h = refl
  step_od md po cr ar cs hp (some a) h =
      ap
        (λ x.
          full md po cr ar cs hp (some (record { value = x; with_mods = a.with_mods })) none none)
        h

  step_ho :
      (md : GameMods) (po : Option ℕ) (cr : Option ℕ) (ar : Option (ModsDependent F32))
      (cs : Option (ModsDependent F32)) (hp : Option (ModsDependent F32))
      (od : Option (ModsDependent F32)) (ho : Option Bool)
      → if_some f m ho (set_hardrock_offsets f m) (full md po cr ar cs hp od none none)
        ≡ full md po cr ar cs hp od ho none
  unfolding set_hardrock_offsets
  step_ho md po cr ar cs hp od none = refl
  step_ho md po cr ar cs hp od (some x) = refl

  step_lz :
      (md : GameMods) (po : Option ℕ) (cr : Option ℕ) (ar : Option (ModsDependent F32))
      (cs : Option (ModsDependent F32)) (hp : Option (ModsDependent F32))
      (od : Option (ModsDependent F32)) (ho : Option Bool) (lz : Option Bool)
      → if_some f m lz (set_lazer f m) (full md po cr ar cs hp od ho none)
        ≡ full md po cr ar cs hp od ho lz
  unfolding set_lazer
  step_lz md po cr ar cs hp od ho none = refl
  step_lz md po cr ar cs hp od ho (some x) = refl

  clock_rates :
      (cr : Option ℕ) (d : Difficulty f m)
      → if_some f m (Option.map from_bits cr) (set_clock_rate f m) d
        ≡ if_some f m cr (λ d b. set_clock_rate f m d (from_bits b)) d
  clock_rates none d = refl
  clock_rates (some b) d = refl

  into_difficulty-inspect_normal :
      (d : Difficulty f m) → IsNormal d → into_difficulty f m (inspect f m d) ≡ d
  unfolding into_difficulty inspect
  into_difficulty-inspect_normal d n =
      ap
        (λ x. if_some f m d.lazer (set_lazer f m) (
          if_some f m d.hardrock_offsets (set_hardrock_offsets f m) (
            if_some f m d.od (λ d a. set_od f m d (a.value) (a.with_mods))
              (if_some f m d.hp (λ d a. set_hp f m d (a.value) (a.with_mods))
                (if_some f m d.cs (λ d a. set_cs f m d (a.value) (a.with_mods))
                  (if_some f m d.ar (λ d a. set_ar f m d (a.value) (a.with_mods))
                    (if_some f m (Option.map from_bits d.clock_rate) (set_clock_rate f m) x)))))))
        (step_po d.mods d.passed_objects)
      ∙ ap
          (λ x. if_some f m d.lazer (set_lazer f m) (
            if_some f m d.hardrock_offsets (set_hardrock_offsets f m) (
              if_some f m d.od (λ d a. set_od f m d (a.value) (a.with_mods))
                (if_some f m d.hp (λ d a. set_hp f m d (a.value) (a.with_mods))
                  (if_some f m d.cs (λ d a. set_cs f m d (a.value) (a.with_mods))
                    (if_some f m d.ar (λ d a. set_ar f m d (a.value) (a.with_mods)) x))))))
          (clock_rates d.clock_rate _ ∙ step_cr d.mods d.passed_objects d.clock_rate n.rate)
      ∙ ap
          (λ x. if_some f m d.lazer (set_lazer f m) (
            if_some f m d.hardrock_offsets (set_hardrock_offsets f m) (
              if_some f m d.od (λ d a. set_od f m d (a.value) (a.with_mods))
                (if_some f m d.hp (λ d a. set_hp f m d (a.value) (a.with_mods))
                  (if_some f m d.cs (λ d a. set_cs f m d (a.value) (a.with_mods)) x)))))
          (step_ar d.mods d.passed_objects d.clock_rate d.ar n.ar)
      ∙ ap
          (λ x. if_some f m d.lazer (set_lazer f m) (
            if_some f m d.hardrock_offsets (set_hardrock_offsets f m) (
              if_some f m d.od (λ d a. set_od f m d (a.value) (a.with_mods))
                (if_some f m d.hp (λ d a. set_hp f m d (a.value) (a.with_mods)) x))))
          (step_cs d.mods d.passed_objects d.clock_rate d.ar d.cs n.cs)
      ∙ ap
          (λ x. if_some f m d.lazer (set_lazer f m) (
            if_some f m d.hardrock_offsets (set_hardrock_offsets f m)
              (if_some f m d.od (λ d a. set_od f m d (a.value) (a.with_mods)) x)))
          (step_hp d.mods d.passed_objects d.clock_rate d.ar d.cs d.hp n.hp)
      ∙ ap
          (λ x.
            if_some f m d.lazer (set_lazer f m)
              (if_some f m d.hardrock_offsets (set_hardrock_offsets f m) x))
          (step_od d.mods d.passed_objects d.clock_rate d.ar d.cs d.hp d.od n.od)
      ∙ ap (λ x. if_some f m d.lazer (set_lazer f m) x)
          (step_ho d.mods d.passed_objects d.clock_rate d.ar d.cs d.hp d.od d.hardrock_offsets)
      ∙ step_lz d.mods d.passed_objects d.clock_rate d.ar d.cs d.hp d.od d.hardrock_offsets d.lazer

  module _ (laws : FloatLaws f) where
    -- Settings that were built by the setters survive the way to `InspectDifficulty` and back.
    pub into_difficulty-inspect :
        {d : Difficulty f m} → Built d → into_difficulty f m (inspect f m d) ≡ d
    into_difficulty-inspect {d} b = into_difficulty-inspect_normal d (Built-IsNormal laws b)
