-- ===== src/Config/Hierarchy.antt =====
-- What a hierarchy of files that loads has given.
use libpolycall_v.Config.{project, PolycallConfig, zero_config}
use libpolycall_v.Prelude.{
  refl, none, some, true, inl, inr, List, ℕ, Option, ◌≡◌, Option-cases, or_else, arith, ◌∙◌, ap,
  Bool-cases, codes, or_else-none,
}
use libpolycall_v.Config.Valid.{IsValid, zero_config-IsValid}
use libpolycall_v.Config.Load.{
  Files, Loaded, load_file, load_runtime, runtime_path, load_hierarchy, load_layers,
  validate_required, has_value, project_path, no_sources,
}
use libpolycall_v.Config.Store.{config_get, get_value}
use libpolycall_v.Config.Added.{
  Adds, language_value, file_value, load_file-Adds, load_runtime-Adds, load_language-Adds,
}

load_hierarchy-layers :
    (files : Files) (name : Option (List ℕ)) (loaded : Loaded)
    → load_hierarchy files name ≡ some loaded
    → (load_layers files name ≡ some loaded) × (validate_required loaded.config true name ≡ true)
unfolding load_hierarchy
load_hierarchy-layers files name loaded e = elim (Option-cases (load_layers files name)) [
  | inl f ↦ absurd (ground (arith, e, f))
  | inr (last, f) ↦ elim (Bool-cases (validate_required last.config true name)) [
    | inl v ↦
        let same : last ≡ loaded = ground (arith, e, f, v) in (f ∙ ap some same, rw (← same) v)
    | inr v ↦ absurd (ground (arith, e, f, v))
  ]
]

-- The three files one after the other.
load_layers-Adds :
    (files : Files) (name : Option (List ℕ)) (loaded : Loaded)
    → load_layers files name ≡ some loaded
    → (base : Loaded) × (ran : Loaded) × Adds zero_config
        (file_value files project_path)
        base.config
      × Adds base.config (file_value files runtime_path) ran.config
      × Adds ran.config (language_value files name) loaded.config
unfolding load_layers
load_layers-Adds files name loaded e =
    elim (Option-cases (load_file files no_sources project_path project)) [
      | inl f ↦ absurd (ground (arith, e, f))
      | inr (base, f) ↦ elim (Option-cases (load_runtime files base)) [
        | inl g ↦ absurd (ground (arith, e, f, g))
        | inr (ran, g) ↦ (
          base,
          ran,
          load_file-Adds files no_sources base project_path project f,
          load_runtime-Adds files base ran g,
          load_language-Adds files ran loaded name (ground (arith, e, f, g)),
        )
      ]
    ]

zero_config-config_get : (k : List ℕ) → config_get zero_config k ≡ none
unfolding get_value config_get
zero_config-config_get k = refl

validate_required-fields :
    (config : PolycallConfig) (name : Option (List ℕ))
    → validate_required config true name ≡ true
    → (has_value config (codes "workspace_root") ≡ true)
      × (has_value config (codes "log_directory") ≡ true)
unfolding validate_required
validate_required-fields config name e = (ground (arith, e), ground (arith, e))

-- When the hierarchy of files loads, its configuration is valid and has the required fields,
-- and each key has the value of the last line that assigns it in the language's file (or the
-- legacy file in its place), else in the runtime file, else in the project file.
pub load_hierarchy_lem :
    (files : Files) (name : Option (List ℕ)) (loaded : Loaded)
    → load_hierarchy files name ≡ some loaded
    → IsValid loaded.config
      × ((k : List ℕ)
          → config_get loaded.config k
            ≡ or_else
                (language_value files name k)
                (or_else (file_value files runtime_path k) (file_value files project_path k)))
      × (validate_required loaded.config true name ≡ true)
load_hierarchy_lem files name loaded e =
    let (l, v) = load_hierarchy-layers files name loaded e in
    let (base, ran, a, b, c) = load_layers-Adds files name loaded l in
    (
      c.valid (b.valid (a.valid zero_config-IsValid)),
      λ k.
          c.gets k
          ∙ ap (or_else (language_value files name k)) (
              b.gets k
              ∙ ap (or_else (file_value files runtime_path k)) (
                  a.gets k
                  ∙ ap (or_else (file_value files project_path k)) (zero_config-config_get k)
                  ∙ or_else-none (file_value files project_path k))),
      v,
    )
