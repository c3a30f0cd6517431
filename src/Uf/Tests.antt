-- ===== src/Uf/Tests.antt =====
-- The units of the tests of the package.
use nanci.Prelude.{◌≡◌, refl, none, some}
use nanci.Text.{codes}
use nanci.Uf.{code_of, code_in}

sp : code_of (codes "SP") ≡ some 35
unfolding code_of code_in
sp = refl

lower_case : code_of (codes "sp") ≡ none
unfolding code_of code_in
lower_case = refl
