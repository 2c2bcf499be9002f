-- ===== src/Capped/Tests.antt =====
-- Runs of the capped writers, and the theorems about them at concrete inputs.
use vpsops.Base.{◌≡◌, refl, true, false, List, [], ◌∷◌, ◌++◌, Text, codes, pos, arith}
use vpsops.Capped.{Sink, new_capped_buffer, write_all, new_capped_tee_writer, copy_tee}
use vpsops.Capped.Prefix.{write_all-concat}
use vpsops.Capped.Tee.{Accepts, copy_tee-concat}

abbrev chunks : List Text
chunks = codes "hello " ∷ codes "wide " ∷ codes "world" ∷ []

-- A destination in memory.
abbrev memory : Sink
memory = record { State = Text; write = λ s p. (s ++ p, true); contents = λ s. s }

memory-Accepts : Accepts memory
memory-Accepts = record { succeeds = λ s p. refl; appends = λ s p. refl }

write_all-concat_example :
    ((write_all (new_capped_buffer (pos 8)) chunks).buf ≡ codes "hello wi")
    × ((write_all (new_capped_buffer (pos 8)) chunks).truncated ≡ true)
write_all-concat_example = write_all-concat (pos 8) chunks (omega arith)

copy_tee-concat_example :
    ((copy_tee memory (new_capped_tee_writer memory (codes "> ") (pos 16)) chunks).1 ≡ true)
    × ((copy_tee memory (new_capped_tee_writer memory (codes "> ") (pos 16)) chunks).0.dst
        ≡ codes "> hello wide world")
    × ((copy_tee memory (new_capped_tee_writer memory (codes "> ") (pos 16)) chunks).0.truncated
        ≡ false)
copy_tee-concat_example =
    copy_tee-concat memory (codes "> ") (pos 16) chunks memory-Accepts (omega arith)
