-- ===== src/Kbuf/Tests.antt =====
-- A growing buffer at a concrete size.
use project_luciano.Base.{ℕ, refl, some, [], ◌∷◌, arith, replicate, length-replicate}
use project_luciano.Kbuf.{Kbuf, Alloc, grow_to}
use project_luciano.Kbuf.Grow.{IsValid, IsSized, Ends, grow_to-Ends}

abbrev three : Kbuf
three = record { bytes = 7 ∷ 8 ∷ 9 ∷ []; allocated = 3 }

three-IsValid : IsValid three
three-IsValid = record { size = refl; small = omega arith }

abbrev zeroed : Alloc
zeroed call size = some (replicate size 0)

zeroed-IsSized : IsSized zeroed
zeroed-IsSized call size fresh e = ground (arith, length-replicate {A = ℕ} size 0)

grow_to-Ends_example : Ends zeroed three 40 (grow_to 66 zeroed 5 40 three)
grow_to-Ends_example = grow_to-Ends zeroed 5 40 three three-IsValid zeroed-IsSized
