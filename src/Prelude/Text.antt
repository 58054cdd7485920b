-- ===== src/Prelude/Text.antt =====
-- Python's tests on texts: `strip`, `in`, and joining.
use Prim.Native.Char.{code}
use Prim.Native.String.{String}
use mathlib.Core.Bool.{Bool, true, ◌&&◌, ◌||◌}
use Prim.Native.Nat.{ℕ}
use text.Mathlib.Text.{starts_with}
use opspilot_agent_platform.Prelude.Tests.{leb, ◌==◌, nat_eq}

-- The code points that `str.strip` takes off.
unfoldable pub is_space : ℕ → Bool
is_space c =
    (leb 9 c && leb c 13)
    || (leb 28 c && leb c 32)
    || c == 133
    || c == 160
    || c == 5760
    || (leb 8192 c && leb c 8202)
    || c == 8232
    || c == 8233
    || c == 8239
    || c == 8287
    || c == 12288

-- `not s.strip()`
unfoldable pub is_blank : String → Bool
unfolding is_space
is_blank String.[] = true
is_blank (String.◌∷◌ c s) = is_space (code c) && is_blank s

-- `sub in s`
unfoldable pub occurs_in : String → String → Bool
occurs_in sub String.[] = starts_with String.[] sub
occurs_in sub (String.◌∷◌ c s) = starts_with (String.◌∷◌ c s) sub || occurs_in sub s
