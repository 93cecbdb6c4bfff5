-- ===== src/Envelope/Tests.antt =====
-- The checksum at its published check value, and an envelope around three bytes.
use monte_carlo.Prelude.{◌≡◌, arith, refl, [], ◌∷◌, bytes_of}
use monte_carlo.Exception.{ok}
use monte_carlo.Envelope.{
  crc32c, crc_loop, table_entry, table_steps, table_step, make_envelope, open_envelope,
}
use monte_carlo.Envelope.RoundTrip.{open_envelope-make_envelope}

crc32c_check : crc32c (bytes_of "123456789") ≡ 0xE3069283
unfolding crc32c crc_loop table_entry table_steps table_step bytes_of
crc32c_check = refl

open_envelope-make_envelope_example :
    open_envelope (make_envelope (bytes_of "MCR2BLK_") (1 ∷ 2 ∷ 3 ∷ [])) (bytes_of "MCR2BLK_") 4096
    ≡ ok (1 ∷ 2 ∷ 3 ∷ [])
unfolding bytes_of
open_envelope-make_envelope_example =
    open_envelope-make_envelope (bytes_of "MCR2BLK_") (1 ∷ 2 ∷ 3 ∷ []) 4096 refl (omega arith)
      (omega arith)
