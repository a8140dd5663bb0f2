-- ===== src/Base/Text.antt =====
-- Texts as bytes: the UTF-8 conversion []byte(s), and tests on byte lists.
use Prim.Native.Char.{code}
use Prim.Native.String.{String}
use Prim.Native.Nat.{ℕ, ◌+◌, ◌/◌, ◌%◌}
use mathlib.Core.Bool.{Bool, true, false, ◌&&◌}
use mathlib.Core.List.{List, [], ◌∷◌, ◌++◌}
use atlassian_sampling_proce.Base.Tests.{ltb, ◌==◌, if◌then◌else◌}

unfoldable pub utf8 : ℕ → List ℕ
utf8 c =
    if ltb c 0x80
    then c ∷ []
    else (if ltb c 0x800
        then (0xc0 + c / 0x40) ∷ (0x80 + c % 0x40) ∷ []
        else (if ltb c 0x1_0000
            then (0xe0 + c / 0x1000) ∷ (0x80 + c / 0x40 % 0x40) ∷ (0x80 + c % 0x40) ∷ []
            else ((0xf0 + c / 0x4_0000)
                ∷ (0x80 + c / 0x1000 % 0x40)
                ∷ (0x80 + c / 0x40 % 0x40)
                ∷ (0x80 + c % 0x40)
                ∷ [])))

unfoldable pub bytes_of : String → List ℕ
unfolding utf8
bytes_of String.[] = []
bytes_of (String.◌∷◌ c s) = utf8 (code c) ++ bytes_of s

-- slices.Equal on bytes
unfoldable pub bytes_equal : List ℕ → List ℕ → Bool
bytes_equal [] [] = true
bytes_equal (a ∷ s) (b ∷ t) = (a == b) && bytes_equal s t
bytes_equal _ _ = false
