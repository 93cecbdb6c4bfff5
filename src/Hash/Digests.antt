-- ===== src/Hash/Digests.antt =====
-- The shape of a digest and of the padded tail.
use monte_carlo.Prelude.{
  ℕ, ◌*◌, ◌^◌, ◌<◌, ◌≤◌, ◌+◌, ◌-◌, ◌%◌, ◌≡◌, ◌⊎◌, refl, arith, List, ◌∷◌, ◌++◌, length, replicate,
  length-append, length-replicate, IsBytes, Bool-cases, inl, inr, ltb,
}
use monte_carlo.Hash.{Hasher, Digest, finalize, sha256, tail_bytes, padded_size, length_bytes}
use monte_carlo.Hash.Rounds.{State, state_bytes}
use monte_carlo.Hash.Stream.{IsValid}

-- 32 bytes.
pub record IsDigest (d : Digest) : Type 0 where
  pub size : length d ≡ 32
  pub bytes : IsBytes d

state_bytes-IsDigest : (s : State) → IsDigest (state_bytes s)
unfolding state_bytes
state_bytes-IsDigest s = record { size = refl; bytes = omega arith }

pub finalize-IsDigest : (h : Hasher) → IsDigest (finalize h)
unfolding finalize
finalize-IsDigest h = state_bytes-IsDigest _

-- Every digest that the program computes is 32 bytes long.
pub sha256-IsDigest : (bytes : List ℕ) → IsDigest (sha256 bytes)
unfolding sha256
sha256-IsDigest bytes = finalize-IsDigest _

length-length_bytes : (n : ℕ) → length (length_bytes n) ≡ 8
unfolding length_bytes
length-length_bytes n = refl

padded_size-cases :
    (n : ℕ) → n < 64 → ((padded_size n ≡ 64) × (n < 56)) ⊎ ((padded_size n ≡ 128) × (56 ≤ n))
unfolding padded_size
padded_size-cases n h = elim (Bool-cases (ltb n 56)) [
  | inl e ↦ inl (rw e refl, ground arith)
  | inr e ↦ inr (rw e refl, ground arith)
]

length-padded :
    (buffer : List ℕ) (k n : ℕ)
    → length (buffer ++ (0x80 ∷ (replicate k 0 ++ length_bytes n))) ≡ length buffer + (k + 9)
length-padded buffer k n = omega (
  arith,
  length-append buffer (0x80 ∷ (replicate k 0 ++ length_bytes n)),
  length-append (replicate k 0) (length_bytes n),
  length-replicate {A = ℕ} k 0,
  length-length_bytes n,
)

-- The padding of `finalize` stays within its 128-byte tail: what is hashed last, which is the
-- buffer, 0x80, zeros and the eight bytes of the bit length, is exactly one block or two.
pub length-tail_bytes :
    (h : Hasher)
    → IsValid h
    → (length (tail_bytes h) ≡ padded_size (length h.buffer))
      × ((length (tail_bytes h) ≡ 64) ⊎ (length (tail_bytes h) ≡ 128))
unfolding tail_bytes
length-tail_bytes h v =
    rw
      (length-padded h.buffer (padded_size (length h.buffer) - length h.buffer - 9)
        (h.total_bytes * 8 % 2 ^ 64))
      (elim (padded_size-cases (length h.buffer) v.partial) [
        | inl (e, small) ↦ (omega arith, inl (omega arith))
        | inr (e, large) ↦ (omega arith, inr (omega arith))
      ])
