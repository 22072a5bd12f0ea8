-- ===== src/Base/Texts.antt =====
-- Text: the native `String`, its code points, and the `str` methods that the program calls.
use Prim.Native.Nat.{ℕ, zero, suc}
use Prim.Native.Char.{Char, code}
use Prim.Native.String.{String}
use mathlib.Core.Bool.{Bool, ◌&&◌, ◌||◌}
use mathlib.Core.List.{List, [], ◌∷◌}
use scooling_lab.Base.Tests.{str_eq, leb, ◌==◌, if◌then◌else◌}

-- the code points of a text
abbrev pub codes : String → List ℕ
codes String.[] = []
codes (String.◌∷◌ c s) = code c ∷ codes s

-- the first `n` characters, `s[:n]`
abbrev pub prefix : ℕ → String → String
prefix zero s = ""
prefix (suc n) String.[] = ""
prefix (suc n) (String.◌∷◌ c s) = String.◌∷◌ c (prefix n s)

-- `s.endswith(t)`
abbrev pub ends_with : String → String → Bool
ends_with String.[] t = str_eq "" t
ends_with (String.◌∷◌ c s) t = str_eq (String.◌∷◌ c s) t || ends_with s t

-- `s.removesuffix(t)`
abbrev pub remove_suffix : String → String → String
remove_suffix String.[] t = ""
remove_suffix (String.◌∷◌ c s) t =
    let rest = String.◌∷◌ c (remove_suffix s t) in if str_eq (String.◌∷◌ c s) t then "" else rest

-- the ASCII classes of the program's regular expressions
abbrev pub is_upper : ℕ → Bool
is_upper c = leb b'A' c && leb c b'Z'

abbrev pub is_lower : ℕ → Bool
is_lower c = leb b'a' c && leb c b'z'

abbrev pub is_digit : ℕ → Bool
is_digit c = leb b'0' c && leb c b'9'

-- `s[n:]`
abbrev pub drop : ℕ → String → String
drop zero s = s
drop (suc n) String.[] = ""
drop (suc n) (String.◌∷◌ c s) = drop n s

-- `s.lstrip()`, `s.rstrip()` and `s.strip()` of the characters of a class
unfoldable pub lstrip : (ℕ → Bool) → String → String
lstrip q String.[] = ""
lstrip q (String.◌∷◌ c s) = let rest = lstrip q s in if q (code c) then rest else String.◌∷◌ c s

unfoldable pub rstrip : (ℕ → Bool) → String → String
rstrip q String.[] = ""
rstrip q (String.◌∷◌ c s) =
    let rest = rstrip q s in if q (code c) && str_eq rest "" then "" else String.◌∷◌ c rest

abbrev pub strip : (ℕ → Bool) → String → String
strip q s = rstrip q (lstrip q s)

-- a character before the first part of a list of parts
abbrev push : Char → List String → List String
push c [] = String.◌∷◌ c "" ∷ []
push c (s ∷ rest) = String.◌∷◌ c s ∷ rest

-- `s.split(sep)` for one character
unfoldable pub split : ℕ → String → List String
split sep String.[] = "" ∷ []
split sep (String.◌∷◌ c s) =
    let rest = split sep s in if code c == sep then "" ∷ rest else push c rest
