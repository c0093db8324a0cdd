-- ===== src/Base/Slashes.antt =====
-- Trimming slashes from the end of a text.
use Prim.Native.String.{String, [], ◌∷◌}
use mathlib.Core.Bool.{◌&&◌}
use text.Mathlib.Text.{◌==◌}
use fabricd.Base.Tests.{if◌then◌else◌}

-- `str::trim_end_matches('/')`
unfoldable pub trim_end_slashes : String → String
trim_end_slashes [] = ""
trim_end_slashes (c ∷ s) =
    let rest = trim_end_slashes s in if rest == "" && (c ∷ []) == "/" then "" else c ∷ rest
