-- ===== src/Kmod/Manager.antt =====
-- osbase/kmod/manager.go: loading modules with their dependencies. What the file system and the
-- kernel do is a parameter: whether a file opens, and how the kernel answers, which may depend on
-- what it was given before.
pub mod Loading
pub mod Giving
use monogon.Kmod.{RadixNode, lookup_modules_rec}
use monogon.Prelude.{
  ℕ, zero, suc, Bool, true, false, not, ◌||◌, Option, none, some, if◌then◌else◌, ◌==◌, Bytes,
  bytes_eq, List, [], ◌∷◌, ◌++◌,
}

pub record Module : Type 0 where
  pub name : Bytes
  pub path : Bytes
  pub depends : List ℕ

-- The answers of the kernel: no error, EEXIST, and any other error.
pub data Answer : Type 0 where
  accepted : Answer
  already_exists : Answer
  refused : Answer

-- The maps of the manager and what was given to the kernel so far.
pub record Manager : Type 0 where
  pub loaded_modules : List ℕ
  pub given : List ℕ

pub data Outcome : Type 0 where
  loaded : Manager → Outcome
  failed : Manager → Outcome
  not_found : Outcome
  panicked : Outcome
  out_of_fuel : Outcome

abbrev pub has : ℕ → List ℕ → Bool
has x [] = false
has x (y ∷ ys) = (y == x) || has x ys

abbrev pub is_empty : Bytes → Bool
is_empty [] = true
is_empty (c ∷ s) = false

-- `meta.Modules[i]`.
abbrev pub module_at : List Module → ℕ → Option Module
module_at [] i = none
module_at (m ∷ ms) zero = some m
module_at (m ∷ ms) (suc i) = module_at ms i

-- The map from names to indices, where a later module of the same name wins.
unfoldable pub module_index : Bytes → List Module → Option ℕ
module_index name [] = none
module_index name (m ∷ ms) = elim (module_index name ms) [
  | some i ↦ some (suc i)
  | none ↦ if bytes_eq m.name name then some zero else none
]

module _ (meta : List Module) (opens : Bytes → Bool) (kernel : List ℕ → ℕ → Answer) where
  -- The end of loadModuleRecursive: the file is opened and given to the kernel.
  unfoldable pub insert_module : Module → ℕ → Manager → Outcome
  insert_module m i s = elim (opens m.path) [
    | false ↦ failed s
    | true ↦ elim (kernel s.given i) [
      | already_exists ↦
          failed (record { loaded_modules = s.loaded_modules; given = s.given ++ i ∷ [] })
      | accepted ↦
          loaded (record { loaded_modules = i ∷ s.loaded_modules; given = s.given ++ i ∷ [] })
      | refused ↦
          loaded (record { loaded_modules = i ∷ s.loaded_modules; given = s.given ++ i ∷ [] })
    ]
  ]

  -- loadModuleRecursive for one module after the other, as the loop over dependencies and the one
  -- over matches do. The fuel bounds the depth of the recursion.
  unfoldable pub load_modules : ℕ → List ℕ → Manager → Outcome
  load_modules fuel [] s = loaded s
  load_modules zero (i ∷ is) s = out_of_fuel
  load_modules (suc fuel) (i ∷ is) s = elim (has i s.loaded_modules) [
    | true ↦ load_modules (suc fuel) is s
    | false ↦ elim (module_at meta i) [
      | none ↦ panicked
      | some m ↦ elim (is_empty m.path) [
        | true ↦ load_modules (suc fuel) is s
        | false ↦ elim (load_modules fuel m.depends s) [
          | failed t ↦ failed t
          | not_found ↦ not_found
          | panicked ↦ panicked
          | out_of_fuel ↦ out_of_fuel
          | loaded t ↦ elim (insert_module m i t) [
            | failed u ↦ failed u
            | not_found ↦ not_found
            | panicked ↦ panicked
            | out_of_fuel ↦ out_of_fuel
            | loaded u ↦ load_modules (suc fuel) is u
          ]
        ]
      ]
    ]
  ]

  unfoldable pub load_module : ℕ → Bytes → Manager → Outcome
  load_module fuel name s = elim (module_index name meta) [
    | none ↦ not_found
    | some i ↦ load_modules fuel (i ∷ []) s
  ]

  -- LoadModulesForDevice: the matches are a Go map, of which this is one order; one that comes again
  -- is there already.
  unfoldable pub load_modules_for_device : ℕ → RadixNode → Bytes → Manager → Outcome
  load_modules_for_device fuel device_matches alias s =
      load_modules fuel (lookup_modules_rec device_matches alias) s
