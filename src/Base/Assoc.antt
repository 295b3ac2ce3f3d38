-- ===== src/Base/Assoc.antt =====
-- Association lists with text keys, in insertion order. A new key goes to the end.
use Prim.Native.String.{String}
use mathlib.Core.Path.{◌≡◌, refl}
use mathlib.Core.Option.{Option, none, some}
use mathlib.Core.List.{List, [], ◌∷◌}
use native.Mathlib.Omega.{arith}
use text.Mathlib.Text.{◌==◌ as str_eq}
use text.Mathlib.TextEquality.{eq_iff}
use Prim.Native.Nat.{◌<◌}
use mai3_broker.Base.Lists.{length}
use mai3_broker.Base.Tests.{if◌then◌else◌}

abbrev pub Dict : Type 0 → Type 0
Dict V = List (String × V)

module _ {V : Type 0} where
  abbrev pub lookup : String → Dict V → Option V
  lookup k [] = none
  lookup k ((j, v) ∷ m) = if str_eq j k then some v else lookup k m

  abbrev pub insert : String → V → Dict V → Dict V
  insert k v [] = (k, v) ∷ []
  insert k v ((j, w) ∷ m) = if str_eq j k then (k, v) ∷ m else (j, w) ∷ insert k v m

  abbrev pub erase : String → Dict V → Dict V
  erase k [] = []
  erase k ((j, w) ∷ m) = if str_eq j k then m else (j, w) ∷ erase k m

  -- No key is listed twice.
  abbrev pub IsDict : Dict V → Type 0
  IsDict [] = Unit {0}
  IsDict ((j, w) ∷ m) = (lookup j m ≡ none) × IsDict m

  pub lookup-insert :
      (k j : String) (v : V) (m : Dict V)
      → lookup j (insert k v m) ≡ (if str_eq k j then some v else lookup j m)
  lookup-insert k j v [] = refl
  lookup-insert k j v ((i, w) ∷ m) =
      ground (arith, eq_iff k j, eq_iff i k, eq_iff i j, lookup-insert k j v m)

  pub lookup-erase :
      (k j : String) (m : Dict V)
      → IsDict m
      → lookup j (erase k m) ≡ (if str_eq k j then none else lookup j m)
  lookup-erase k j [] h = ground arith
  lookup-erase k j ((i, w) ∷ m) h =
      ground (arith, eq_iff k j, eq_iff i k, eq_iff i j, lookup-erase k j m h.1)

  pub insert-IsDict : (k : String) (v : V) (m : Dict V) → IsDict m → IsDict (insert k v m)
  insert-IsDict k v [] h = (refl, tt)
  insert-IsDict k v ((i, w) ∷ m) h =
      ground (arith, eq_iff i k, eq_iff k i, insert-IsDict k v m h.1, lookup-insert k i v m)

  pub erase-IsDict : (k : String) (m : Dict V) → IsDict m → IsDict (erase k m)
  erase-IsDict k [] h = tt
  erase-IsDict k ((i, w) ∷ m) h =
      ground (arith, eq_iff i k, eq_iff k i, erase-IsDict k m h.1, lookup-erase k i m h.1)

  pub length-insert : (k : String) (v : V) (m : Dict V) → 0 < length (insert k v m)
  length-insert k v [] = omega arith
  length-insert k v ((i, w) ∷ m) = ground arith
