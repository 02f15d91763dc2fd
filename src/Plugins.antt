-- ===== src/Plugins.antt =====
-- dmlf/manager/scheduler_factory.py: `load_scheduler_class`; dmlf/autoscaler/policy.py:
-- `Autoscaler.load_callback`. The modules that Python imports are a parameter.
use Prim.Native.Char.{code}
use Prim.Native.String.{◌++◌ as str_append}
use text.Mathlib.TextLemmas.{nil-append, cons-append, append-nil}
use text.Mathlib.TextEquality.{eq_iff}
use distributed_ml_training.Base.{
  ℕ, ◌≡◌, refl, sym, ap, ◌∙◌, String, Option, none, some, Bool, false, ◌==◌, eqb, if◌then◌else◌,
  ◌⊎◌, inl, inr, Bool-cases,
}
use distributed_ml_training.Text.Words.{Free}

-- text.rsplit(sep, 1) of a text that has the separator; `none` is a list of one piece.
unfoldable pub rsplit_once : (sep : ℕ) → String → Option (String × String)
rsplit_once sep String.[] = none
rsplit_once sep (String.◌∷◌ c s) = elim (rsplit_once sep s) [
  | some (before, after) ↦ some (String.◌∷◌ c before, after)
  | none ↦ if eqb (code c) sep then some ("", s) else none
]

-- importlib, getattr and issubclass; `none` is an exception.
pub record Imports : Type 1 where
  pub Module : Type 0
  pub Value : Type 0
  pub import_module : String → Option Module
  pub get_attr : Module → String → Option Value
  pub is_scheduler : Value → Bool

-- The exceptions, by the step that raises: ValueError, ImportError, AttributeError, TypeError.
pub data PluginError : Type 0 where
  no_colon not_imported no_attribute no_scheduler : PluginError

abbrev pub default_plugin : String
default_plugin = "dmlf.manager.schedulers.builtin:PriorityBinPackScheduler"

module _ (imports : Imports) where
  open imports use {Value}

  -- The value of an attribute of a module, both by name.
  unfoldable pub import_attr : (module_name name : String) → Value ⊎ PluginError
  import_attr module_name name = elim (imports.import_module module_name) [
    | none ↦ inr not_imported
    | some loaded ↦ elim (imports.get_attr loaded name) [ none ↦ inr no_attribute | some v ↦ inl v ]
  ]

  unfoldable pub load_callback : (dotted_path : String) → Value ⊎ PluginError
  unfolding rsplit_once import_attr
  load_callback dotted_path = elim (rsplit_once b':' dotted_path) [
    | none ↦ inr no_colon
    | some (mod_name, func_name) ↦ import_attr mod_name func_name
  ]

  -- dotted_path or _DEFAULT_PLUGIN
  abbrev pub plugin_path : Option String → String
  plugin_path none = default_plugin
  plugin_path (some path) = if path == "" then default_plugin else path

  unfoldable pub load_scheduler_class : (dotted_path : Option String) → Value ⊎ PluginError
  unfolding rsplit_once import_attr
  load_scheduler_class dotted_path = elim (rsplit_once b':' (plugin_path dotted_path)) [
    | none ↦ inr no_colon
    | some (module_name, class_name) ↦ elim (import_attr module_name class_name) [
      | inr e ↦ inr e
      | inl cls ↦ if imports.is_scheduler cls then inl cls else inr no_scheduler
    ]
  ]

-- The text splits at its last separator.
rsplit_once-append :
    (sep : ℕ) (a b c : String)
    → Free (λ k. eqb k sep) c
    → rsplit_once sep b ≡ some (a, c)
    → (before : String) → rsplit_once sep (str_append before b) ≡ some (str_append before a, c)
unfolding rsplit_once
rsplit_once-append sep a b c free split String.[] = rw (nil-append b, nil-append a) split
rsplit_once-append sep a b c free split (String.◌∷◌ d before) =
    ap (rsplit_once sep) (cons-append d before b)
    ∙ rw (rsplit_once-append sep a b c free split before, rsplit_once) refl
    ∙ ap (λ (t : String). some (t, c)) (sym (cons-append d before a))

rsplit_once-Free : (sep : ℕ) (c : String) → Free (λ k. eqb k sep) c → rsplit_once sep c ≡ none
unfolding rsplit_once
rsplit_once-Free sep String.[] free = refl
rsplit_once-Free sep (String.◌∷◌ d c) free = rw (rsplit_once-Free sep c free.1, free.0) refl

-- A name without colons behind the last one of the path.
rsplit_once-path :
    (module_name name : String)
    → Free (λ k. eqb k b':') name
    → rsplit_once b':' (str_append module_name (str_append ":" name)) ≡ some (module_name, name)
unfolding rsplit_once
rsplit_once-path module_name name free =
    let tail : str_append ":" name ≡ String.◌∷◌ ":" name =
      cons-append ":" "" name ∙ ap (String.◌∷◌ ":") (nil-append name) in
    let split : rsplit_once b':' (str_append ":" name) ≡ some ("", name) =
      ap (rsplit_once b':') tail ∙ rw (rsplit_once-Free b':' name free, rsplit_once) refl in
    rsplit_once-append b':' "" (str_append ":" name) name free split module_name
    ∙ ap (λ (t : String). some (t, name)) (append-nil module_name)

-- A path `module:name` is imported by its two names, the module's with colons of its own or not, and
-- what is not a scheduler class is refused.
pub load_scheduler_class-path :
    (imports : Imports) (module_name class_name : String)
    → Free (λ k. eqb k b':') class_name
    → let path = str_append module_name (str_append ":" class_name) in
      (load_callback imports path ≡ import_attr imports module_name class_name)
      × (load_scheduler_class imports (some path)
          ≡ (elim (import_attr imports module_name class_name) [
            | inr e ↦ inr e
            | inl cls ↦ if imports.is_scheduler cls then inl cls else inr no_scheduler
          ]))
unfolding load_callback load_scheduler_class
load_scheduler_class-path imports module_name class_name free =
    let path = str_append module_name (str_append ":" class_name) in
    let splits = rsplit_once-path module_name class_name free in
    let full : (path == "") ≡ false = elim (Bool-cases (path == "")) [
      | inl empty ↦ absurd (no_split ((eq_iff _ _).0 empty) splits)
      | inr full ↦ full
    ] in
    (rw (splits, load_callback) refl, rw (full, splits, load_scheduler_class) refl)
  where
    no_split :
        {path : String} {pieces : String × String}
        → path ≡ ""
        → rsplit_once b':' path ≡ some pieces
        → ⊥
    no_split {path = path} empty splits =
        let nothing : rsplit_once b':' path ≡ none =
          ap (rsplit_once b':') empty ∙ (unfold rsplit_once in refl) in
        absurd cc
