-- ===== src/Base/Dicts.antt =====
-- A Go map with string keys, as the function that looks a key up.
use mathlib.Core.Bool.{Bool}
use mathlib.Core.Option.{Option, none, some}
use easy_docker_proxy.Base.Tests.{if◌then◌else◌}
use easy_docker_proxy.Base.Text.{Str, str_eq}

abbrev pub Dict {ℓ} : Type ℓ → Type ℓ
Dict V = Str → Option V

module _ {ℓ} {V : Type ℓ} where
  abbrev pub empty : Dict V
  empty _ = none

  -- `m[k] = v`
  abbrev pub insert : Str → V → Dict V → Dict V
  insert k v m j = if str_eq k j then some v else m j

  -- `delete(m, k)`
  abbrev pub remove : Str → Dict V → Dict V
  remove k m j = if str_eq k j then none else m j

  abbrev pub keep_some : (V → Bool) → Option V → Option V
  keep_some p none = none
  keep_some p (some v) = if p v then some v else none

  -- A loop that deletes each key whose test fails.
  abbrev pub keep : (Str → V → Bool) → Dict V → Dict V
  keep p m j = keep_some (p j) (m j)
