-- ===== src/Base/TextMaps.antt =====
-- Go maps whose keys are walked as text: the value of a key is that of its last write.
use mathlib.Core.Path.{◌≡◌, refl}
use mathlib.Core.Option.{Option, none, some}
use mathlib.Core.List.{List, [], ◌∷◌}
use native.Mathlib.Omega.{arith}
use stockyard.Base.Bytes.{Text, text_eq}
use stockyard.Base.Tests.{if◌then◌else◌}

abbrev pub TextMap : Type 0
TextMap = List (Text × Text)

unfoldable pub find_text : Text → TextMap → Option Text
find_text key [] = none
find_text key ((k, v) ∷ m) = if text_eq k key then some v else find_text key m

-- `m[key] = value`: the new entry hides the old one.
abbrev pub put_text : Text → Text → TextMap → TextMap
put_text key value m = (key, value) ∷ m

-- `for k, v := range m { n[k] = v }`
unfoldable pub put_all : TextMap → TextMap → TextMap
put_all [] n = n
put_all ((k, v) ∷ m) n = put_text k v (put_all m n)

abbrev pub or_else {ℓ} : {A : Type ℓ} → Option A → Option A → Option A
or_else none other = other
or_else (some a) other = some a

pub find_text-put_all :
    (key : Text) (m n : TextMap)
    → find_text key (put_all m n) ≡ or_else (find_text key m) (find_text key n)
unfolding find_text put_all
find_text-put_all key [] n = refl
find_text-put_all key ((k, v) ∷ m) n = ground (arith, find_text-put_all key m n)
