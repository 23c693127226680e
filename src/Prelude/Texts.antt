-- ===== src/Prelude/Texts.antt =====
-- JavaScript strings, as far as the program looks into them.
use Prim.Native.String.{String}
use Prim.Native.Char.{code}
use mathlib.Core.Bool.{Bool, true, false}
use batch_it_protocol.Prelude.Tests.{◌==◌, if◌then◌else◌}
use text.Mathlib.Text.{◌==◌ as str_eq}

abbrev pub same_text : String → String → Bool
same_text = str_eq

-- The empty string is falsy.
abbrev pub is_truthy : String → Bool
is_truthy String.[] = false
is_truthy (String.◌∷◌ _ _) = true

-- `s.replace(/\/$/, "")`: a slash at the end is dropped.
unfoldable pub drop_trailing_slash : String → String
drop_trailing_slash String.[] = String.[]
drop_trailing_slash (String.◌∷◌ c s) =
    let rest = String.◌∷◌ c (drop_trailing_slash s) in
    if code c == 0x2f then elim s [ String.[] ↦ String.[] | String.◌∷◌ _ _ ↦ rest ] else rest
