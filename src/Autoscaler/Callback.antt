-- ===== src/Autoscaler/Callback.antt =====
-- The callback of the autoscaler: its choice in `serve` of dmlf/manager/cluster_manager.py, the
-- placeholder of dmlf/autoscaler/default_callback.py, and the default of dmlf/autoscaler/policy.py.
use Prim.Native.String.{◌++◌ as str_append}
use distributed_ml_training.Base.{
  ◌≡◌, refl, String, Option, none, some, true, ◌⊎◌, inl, inr, if◌then◌else◌,
}
use distributed_ml_training.Floats.{Floats}
use distributed_ml_training.Settings.{AutoscalerSettings}
use distributed_ml_training.Plugins.{Imports, PluginError, load_callback}
use distributed_ml_training.Autoscaler.Policy.{Direction, scale_out, scale_in}

-- What `_default_callback` prints.
unfoldable default_callback : Direction → String
default_callback scale_out = "[Autoscaler] default callback → out"
default_callback scale_in = "[Autoscaler] default callback → in"

-- direction.upper()
unfoldable upper : Direction → String
upper scale_out = "OUT"
upper scale_in = "IN"

-- What the placeholder prints.
unfoldable scale_callback : Direction → String
unfolding upper
scale_callback d =
    str_append "[Autoscaler/default] >>> " (str_append (upper d) " requested (no action taken)")

-- The callback that the autoscaler gets: the one that the settings name, or the placeholder.
data Callback (V : Type 0) : Type 0 where
  loaded : V → Callback V
  placeholder : Callback V

sum-cases : {A B : Type 0} (v : A ⊎ B) → ((a : A) × (v ≡ inl a)) ⊎ ((b : B) × (v ≡ inr b))
sum-cases (inl a) = inl (a, refl)
sum-cases (inr b) = inr (b, refl)

module _ (fl : Floats) (imports : Imports) where
  -- The callback of the autoscaler that `serve` starts; `none` if it starts none.
  unfoldable start_autoscaler : AutoscalerSettings fl → Option (Callback imports.Value)
  start_autoscaler s =
      if s.enabled
      then elim (load_callback imports s.scale_callback) [
        | inl cb ↦ some (loaded cb)
        | inr failed ↦ some placeholder
      ]
      else none

  -- An enabled autoscaler starts: with the callback that the settings name, if it loads, and with
  -- the placeholder otherwise.
  start_autoscaler-enabled :
      (s : AutoscalerSettings fl)
      → s.enabled ≡ true
      → ((cb : imports.Value) × (load_callback imports s.scale_callback ≡ inl cb)
          × (start_autoscaler s ≡ some (loaded cb)))
        ⊎ ((failed : PluginError) × (load_callback imports s.scale_callback ≡ inr failed)
            × (start_autoscaler s ≡ some placeholder))
  unfolding start_autoscaler
  start_autoscaler-enabled s on = elim (sum-cases (load_callback imports s.scale_callback)) [
    | inl (cb, e) ↦ inl (cb, e, rw (on, e) refl)
    | inr (failed, e) ↦ inr (failed, e, rw (on, e) refl)
  ]
