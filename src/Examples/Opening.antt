-- ===== src/Examples/Opening.antt =====
-- Two files, of which the second is read from its second byte on.
use p.Base.{refl, true, [], ◌∷◌, arith, ◌+◌}
use p.Files.{Entry, Buffer, sys_readfile}
use p.Files.Reading.{IsPart, sys_readfile-IsPart}

abbrev first_file : Entry
first_file = record { execname = 105 ∷ 110 ∷ []; execbytes = λ i. i; execlen = 4 }

abbrev second_file : Entry
second_file = record { execname = 105 ∷ []; execbytes = λ i. 65 + i; execlen = 3 }

abbrev blank : Buffer
blank i = 0

sys_readfile-IsPart_example :
    IsPart second_file 10 1
      (sys_readfile (first_file ∷ second_file ∷ []) true (105 ∷ []) blank 10 1).0
      blank
      (sys_readfile (first_file ∷ second_file ∷ []) true (105 ∷ []) blank 10 1).1
sys_readfile-IsPart_example =
    sys_readfile-IsPart (first_file ∷ second_file ∷ []) (105 ∷ []) blank 10 1 second_file []
      (omega arith) (omega arith) refl (omega arith)
