-- ===== src/Config/Load/Checked.antt =====
-- What `Load` of internal/config/config.go accepts.
use mini_control_action.Prelude.{
  ◌≡◌, refl, sym, ap, ◌∙◌, subst, Option, none, some, List, [], ◌∷◌, Text,
}
use mini_control_action.Config.{Config}
use mini_control_action.Config.Defaults.{apply_defaults}
use mini_control_action.Config.Stable.{apply_defaults_twice}
use mini_control_action.Config.Validate.{Problem, validate}
use mini_control_action.Config.Load.{loaded, checked, after_decode, load}

checked_sound :
    (c cfg : Config) (problems : List Problem)
    → validate c ≡ problems
    → checked c problems ≡ loaded cfg
    → (validate cfg ≡ []) × (c ≡ cfg)
checked_sound c cfg [] e h = let same : c ≡ cfg = cc in (subst (λ x. validate x ≡ []) same e, same)
checked_sound c cfg (p ∷ problems) e h = absurd (cc)

decoded_sound :
    (o : Option Config) (cfg : Config)
    → after_decode o ≡ loaded cfg
    → (validate cfg ≡ []) × (apply_defaults cfg ≡ cfg)
decoded_sound none cfg h = absurd (cc)
decoded_sound (some c) cfg h =
    let (valid, same) = checked_sound (apply_defaults c) cfg (validate (apply_defaults c)) refl h in
    (valid, ap apply_defaults (sym same) ∙ (apply_defaults_twice c ∙ same))

-- A configuration that `Load` returns has no problem that `Validate` knows, and every default has been
-- applied to it: applying them again changes nothing.
pub load_sound :
    (env : Text → Text) (decode : Text → Option Config) (raw : Option Text) (cfg : Config)
    → load env decode raw ≡ loaded cfg
    → (validate cfg ≡ []) × (apply_defaults cfg ≡ cfg)
unfolding load
load_sound env decode none cfg h = absurd (cc)
load_sound env decode (some raw) cfg h = decoded_sound _ cfg h
