-- ===== src/Hash/Tests.antt =====
-- Known answers of SHA-256, and the streaming theorem at a message cut into three pieces.
use monte_carlo.Prelude.{ℕ, ◌≡◌, ◌⊎◌, length, refl, bytes_of, List, [], ◌∷◌}
use monte_carlo.Hash.{
  Hasher, sha256, to_hex, update, finalize, new_hasher, absorb, absorb_blocks, tail_bytes,
  padded_size, length_bytes,
}
use monte_carlo.Hash.Rounds.{transform, state_bytes}
use monte_carlo.Hash.Digests.{length-tail_bytes}
use monte_carlo.Hash.Stream.{
  IsValid-update, IsValid-new_hasher, update_all, joined, finalize-update_all,
}

sha256_abc :
    to_hex (sha256 (bytes_of "abc"))
    ≡ bytes_of "ba7816bf8f01cfea414140de5dae2223b00361a396177a9cb410ff61f20015ad"
unfolding to_hex sha256 update finalize new_hasher absorb absorb_blocks tail_bytes padded_size
    length_bytes transform state_bytes bytes_of
sha256_abc = refl

sha256_empty :
    to_hex (sha256 []) ≡ bytes_of "e3b0c44298fc1c149afbf4c8996fb92427ae41e4649b934ca495991b7852b855"
unfolding to_hex sha256 update finalize new_hasher absorb absorb_blocks tail_bytes padded_size
    length_bytes transform state_bytes bytes_of
sha256_empty = refl

abbrev three_pieces : List (List ℕ)
three_pieces = bytes_of "mc-" ∷ bytes_of "durable-" ∷ bytes_of "run-v1" ∷ []

finalize-update_all_example :
    finalize (update_all new_hasher three_pieces) ≡ sha256 (joined three_pieces)
finalize-update_all_example = finalize-update_all three_pieces

-- After one message of twelve bytes.
abbrev twelve_bytes : Hasher
twelve_bytes = update new_hasher (bytes_of "mc-durable-r")

length-tail_bytes_example :
    (length (tail_bytes twelve_bytes) ≡ padded_size (length twelve_bytes.buffer))
    × ((length (tail_bytes twelve_bytes) ≡ 64) ⊎ (length (tail_bytes twelve_bytes) ≡ 128))
length-tail_bytes_example =
    length-tail_bytes twelve_bytes
      (IsValid-update new_hasher (bytes_of "mc-durable-r") IsValid-new_hasher)
