-- ===== src/Strings/Examples.antt =====
-- The theorems on strings, tried on short buffers.
use ucas_os.Common.{ℕ, List, [], ◌∷◌}
use ucas_os.Strings.{separate}
use ucas_os.Strings.Text.{Separated, separate-Separated}

abbrev ab : List ℕ
ab = 97 ∷ 98 ∷ 0 ∷ 99 ∷ []

separate-Separated_example : Separated ab 98 (separate ab 98)
separate-Separated_example = separate-Separated ab 98
