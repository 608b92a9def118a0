-- ===== src/Examples/Loading.antt =====
-- Two modules, of which 0 needs 1, and a kernel that refuses everything.
use monogon.Prelude.{
  ℕ, zero, suc, ◌≡◌, refl, Bool, true, if◌then◌else◌, some, ◌==◌, ==_iff, Bytes, bytes_eq, List, [],
  ◌∷◌, arith,
}
use monogon.Kmod.{radix, root, no_more, lookup_modules_rec, lookup_children}
use monogon.Kmod.Manager.{
  load_modules_for_device, Module, Answer, accepted, already_exists, refused, Manager, loaded,
  not_found, module_at, module_index, has, insert_module, load_modules, load_module,
}
use monogon.Kmod.Manager.Loading.{IsSound, Loads}
use monogon.Kmod.Manager.Giving.{Gives, load_modules_effect}

abbrev upper : Module
upper = record { name = 97 ∷ []; path = 97 ∷ []; depends = 1 ∷ [] }

abbrev lower : Module
lower = record { name = 98 ∷ []; path = 98 ∷ []; depends = [] }

abbrev meta : List Module
meta = upper ∷ lower ∷ []

abbrev opens : Bytes → Bool
opens path = true

abbrev kernel : List ℕ → ℕ → Answer
kernel given i = refused

abbrev rank : ℕ → ℕ
rank i = if i == 0 then 1 else 0

abbrev fresh : Manager
fresh = record { loaded_modules = []; given = [] }

-- Modules that the kernel refuses are marked as loaded, the dependency first.
refused_modules :
    load_module meta opens kernel 2 (97 ∷ []) fresh
    ≡ loaded (record { loaded_modules = 0 ∷ 1 ∷ []; given = 1 ∷ 0 ∷ [] })
unfolding load_module load_modules insert_module module_index bytes_eq
refused_modules = refl

unknown_name : load_module meta opens kernel 2 (99 ∷ []) fresh ≡ not_found
unfolding load_module module_index bytes_eq
unknown_name = refl

one_dependency :
    (i d : ℕ) (m : Module) → module_at meta i ≡ some m → has d m.depends ≡ true → (i ≡ 0) × (d ≡ 1)
one_dependency zero d m at h = (refl, ground (arith, at, h, ==_iff 1 d))
one_dependency (suc zero) d m at h = absurd (ground (arith, at, h))
one_dependency (suc (suc i)) d m at h = absurd (ground (arith, at))

-- A device that nothing matches needs no module.
no_match :
    load_modules_for_device meta opens kernel 2 (radix root [] no_more) (120 ∷ []) fresh
    ≡ loaded fresh
unfolding load_modules_for_device load_modules lookup_modules_rec lookup_children
no_match = refl

meta-IsSound : IsSound meta rank
meta-IsSound = record {
  known = λ i d m at h. let (_, f) = one_dependency i d m at h in (lower, rw f refl);
  ranked = λ i d m at h. let (e, f) = one_dependency i d m at h in ground (arith, e, f);
}

-- A kernel that takes what it does not have.
abbrev taking : List ℕ → ℕ → Answer
taking given i = if has i given then already_exists else accepted

load_modules_effect_example :
    Loads meta opens taking fresh (0 ∷ []) (load_modules meta opens taking 2 (0 ∷ []) fresh)
    × Gives meta opens taking fresh (load_modules meta opens taking 2 (0 ∷ []) fresh)
load_modules_effect_example =
    load_modules_effect meta opens taking rank meta-IsSound 2 (0 ∷ []) fresh
      (λ i h. let e : i ≡ 0 = ground (arith, h, ==_iff 0 i) in rw e (omega arith, upper, refl))
      (λ i d m h at dep. absurd (ground (arith, h)))
