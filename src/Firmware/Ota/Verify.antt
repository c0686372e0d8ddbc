-- ===== src/Firmware/Ota/Verify.antt =====
-- firmware/vanilla/OtaUpdateServer.cpp: verifyPartition. The partition and the running hash of the
-- crypto adapter are parameters; the key is the adapter's own.
use vehicle_spy.Base.{
  ℕ, zero, suc, ◌+◌, ◌-◌, min, Bool, false, Option, none, some, List, ltb, if◌then◌else◌,
}

-- `size` and `read`; a read that fails has no bytes.
pub record Partition : Type 0 where
  pub capacity : ℕ
  pub read : ℕ → ℕ → Option (List ℕ)

-- signEd25519phInit, Update and FinalVerify, on a hash state `C`.
pub record Crypto (C : Type 0) : Type 0 where
  pub hash_init : Option C
  pub hash_update : C → List ℕ → Option C
  pub final_verify : C → List ℕ → Bool

abbrev pub verify_chunk_size : ℕ
verify_chunk_size = 512

abbrev pub and_then {ℓ κ} : {A : Type ℓ} {B : Type κ} → Option A → (A → Option B) → Option B
and_then none f = none
and_then (some a) f = f a

module _ {C : Type 0} (crypto : Crypto C) where
  unfoldable pub chunk_loop : (ℕ → ℕ → Option (List ℕ)) → ℕ → ℕ → ℕ → C → Option C
  chunk_loop read size zero off state = some state
  chunk_loop read size (suc fuel) off state =
      let n = min (size - off) verify_chunk_size in
      let hashed = and_then (read off n) (λ bytes.
        and_then (crypto.hash_update state bytes)
          (λ next. chunk_loop read size fuel (off + n) next)) in
      if ltb off size then hashed else some state

  abbrev pub verdict : List ℕ → Option C → Bool
  verdict sig none = false
  verdict sig (some state) = crypto.final_verify state sig

  -- A chunk has at least one byte, so the size is fuel enough.
  unfoldable pub hash_image : Partition → ℕ → Option C → Option C
  unfolding chunk_loop
  hash_image p size none = none
  hash_image p size (some state) = chunk_loop p.read size size 0 state

  unfoldable pub verify_partition : Option Partition → ℕ → List ℕ → Bool
  unfolding hash_image
  verify_partition none size sig = false
  verify_partition (some p) size sig =
      if ltb p.capacity size then false else verdict sig (hash_image p size crypto.hash_init)
