-- ===== src/Base/Texts.antt =====
-- Comparison of whole texts.
use Prim.Native.String.{String}
use mathlib.Core.Bool.{Bool}
use text.Mathlib.Text.{◌==◌}

abbrev pub same_text : String → String → Bool
same_text s t = s == t
