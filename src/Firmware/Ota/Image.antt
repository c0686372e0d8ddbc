-- ===== src/Firmware/Ota/Image.antt =====
-- firmware/vanilla/OtaUpdateServer.cpp: verifyPartition hashes the whole image, and nothing else.
use vehicle_spy.Base.{
  ℕ, zero, suc, ◌+◌, ◌-◌, ◌≤◌, min, ◌≡◌, refl, sym, ap, ◌∙◌, inl, inr, Bool, true, false, none,
  some, List, [], ◌++◌, arith, ltb, leb, if◌then◌else◌, Bool-cases, length, take, drop, drop-drop,
  take-add,
}
use vehicle_spy.Firmware.Ota.Verify.{
  Partition, Crypto, verify_chunk_size, chunk_loop, verdict, hash_image, verify_partition,
}

-- A partition that holds an image: it reads what lies inside it.
abbrev pub partition_of : List ℕ → Partition
partition_of image = record {
  capacity = length image;
  read = λ off n. if leb (off + n) (length image) then some (take n (drop off image)) else none;
}

-- A hash that takes its input in pieces: what is hashed is the input as a whole.
pub record Streaming (C : Type 0) : Type 0 where
  pub begin : C
  pub absorb : C → List ℕ → C
  pub accepts : C → List ℕ → Bool
  pub absorb_nil : (c : C) → absorb c [] ≡ c
  pub absorb_append : (c : C) (xs ys : List ℕ) → absorb (absorb c xs) ys ≡ absorb c (xs ++ ys)

abbrev pub crypto_of : {C : Type 0} → Streaming C → Crypto C
crypto_of h = record {
  hash_init = some h.begin;
  hash_update = λ c bytes. some (h.absorb c bytes);
  final_verify = h.accepts;
}

module _ {C : Type 0} (h : Streaming C) (image : List ℕ) (size : ℕ)
    (fits : size ≤ length image) where
  abbrev step : ℕ → ℕ
  step off = min (size - off) verify_chunk_size

  read_inside : (off : ℕ) → ltb off size ≡ true → leb (off + step off) (length image) ≡ true
  read_inside off more = ground arith

  hash_nothing :
      (off : ℕ) (c : C) → size ≤ off → c ≡ h.absorb c (take (size - off) (drop off image))
  hash_nothing off c done =
      sym (h.absorb_nil c)
      ∙ ap (λ (t : ℕ). h.absorb c (take t (drop off image))) {x = 0} (omega arith)

  -- One chunk, and what follows it.
  two_parts :
      (off : ℕ) (c : C)
      → ltb off size ≡ true
      → h.absorb
          (h.absorb c (take (step off) (drop off image)))
          (take (size - (off + step off)) (drop (off + step off) image))
        ≡ h.absorb c (take (size - off) (drop off image))
  two_parts off c more =
      h.absorb_append c (take (step off) (drop off image))
        (take (size - (off + step off)) (drop (off + step off) image))
      ∙ ap (λ q. h.absorb c (take (step off) (drop off image) ++ take (size - (off + step off)) q))
          (sym (drop-drop (step off) off image))
      ∙ ap (h.absorb c) (sym (take-add (step off) (size - (off + step off)) (drop off image)))
      ∙ ap (λ (t : ℕ). h.absorb c (take t (drop off image))) {y = size - off} (ground arith)

  chunk_loop_lem :
      (fuel off : ℕ) (c : C)
      → off ≤ size
      → size ≤ off + fuel
      → chunk_loop (crypto_of h) (partition_of image).read size fuel off c
        ≡ some (h.absorb c (take (size - off) (drop off image)))
  unfolding chunk_loop
  chunk_loop_lem zero off c low enough = ap some (hash_nothing off c (omega arith))
  chunk_loop_lem (suc fuel) off c low enough = elim (Bool-cases (ltb off size)) [
    | inl more ↦
        rw (more, read_inside off more)
          (chunk_loop_lem fuel (off + step off) (h.absorb c (take (step off) (drop off image)))
              (ground arith) (ground arith)
            ∙ ap some (two_parts off c more))
    | inr done ↦ rw done (ap some (hash_nothing off c (ground arith)))
  ]

whole_image :
    {C : Type 0} (h : Streaming C) (image : List ℕ) (size : ℕ)
    → size ≤ length image
    → chunk_loop (crypto_of h) (partition_of image).read size size 0 h.begin
      ≡ some (h.absorb h.begin (take size image))
whole_image h image size fits =
    chunk_loop_lem h image size fits size 0 h.begin (omega arith) (omega arith)
    ∙ ap (λ (t : ℕ). some (h.absorb h.begin (take t image))) (omega arith)

-- An image that lies in its partition is accepted exactly if the signature fits the first `size`
-- bytes of it, each hashed once and in order; more bytes than the partition has are refused.
pub verify_partition-partition_of :
    {C : Type 0} (h : Streaming C) (image : List ℕ) (size : ℕ) (sig : List ℕ)
    → verify_partition (crypto_of h) (some (partition_of image)) size sig ≡ (
        if ltb (length image) size
        then false
        else h.accepts (h.absorb h.begin (take size image)) sig)
unfolding verify_partition hash_image
verify_partition-partition_of h image size sig = elim (Bool-cases (ltb (length image) size)) [
  | inl big ↦ rw big refl
  | inr small ↦ rw small (ap (verdict (crypto_of h) sig) (whole_image h image size (ground arith)))
]
