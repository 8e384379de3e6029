-- ===== src/Bridge/Fetching.antt =====
-- The logs of a range of blocks, fetched in batches, and the numbers that a log can hold
-- (server/src/bridge/eth.rs).
use hyliquid.Prelude.{
  ℕ, zero, suc, ◌+◌, ◌-◌, ◌^◌, ◌≤◌, ◌<◌, true, false, Option, List, [], ◌++◌, ◌≡◌, refl, ◌∙◌, ok,
  Result, leb, ltb, arith, if◌then◌else◌, Bool-cases, inl, inr,
}
use mathlib.Core.List.{append-nil}
use hyliquid.Bridge.World.{BridgeError, World, query, call}
use hyliquid.Bridge.Logs.{
  Log, EthNode, fetch_batches, fetch_transfers_with_topics, batch_end, saturating_suc,
  range_batch_size,
}

-- What a node documents of `eth_getLogs`: a range of blocks holds the logs of its two parts.
abbrev pub IsAdditive : EthNode → Type 0
IsAdditive node =
    (topic1 topic2 : Option ℕ) (first middle last : ℕ)
    → first ≤ middle
    → middle < last
    → node.get_logs first last topic1 topic2
      ≡ node.get_logs first middle topic1 topic2 ++ node.get_logs (middle + 1) last topic1 topic2

-- A world in which no call fails.
abbrev pub faultless : World → World
faultless w = record w { faults = [] }

module _ (node : EthNode) (parts : IsAdditive node) (topic1 topic2 : Option ℕ) (w : World) where
  abbrev batches : (fuel current to_block : ℕ) → World × Result BridgeError (List Log)
  batches fuel current to_block =
      fetch_batches fuel node current to_block topic1 topic2 (faultless w)

  one_batch :
      (fuel current to_block : ℕ) (later : List Log)
      → current ≤ to_block
      → batches fuel (saturating_suc (batch_end current to_block)) to_block
        ≡ (faultless w, ok later)
      → batches (suc fuel) current to_block ≡ (
        faultless w,
        ok (node.get_logs current (batch_end current to_block) topic1 topic2 ++ later),
      )
  unfolding fetch_batches query call
  one_batch fuel current to_block later h e =
      let more : leb current to_block ≡ true = ground arith in rw (more, e) refl

  no_batch : (fuel to_block : ℕ) → batches (suc fuel) (to_block + 1) to_block ≡ (faultless w, ok [])
  unfolding fetch_batches
  no_batch fuel to_block =
      let none_left : leb (to_block + 1) to_block ≡ false = ground arith in rw none_left refl

  batches_all :
      (fuel current to_block : ℕ)
      → current ≤ to_block
      → to_block + 1 < current + fuel
      → to_block + range_batch_size ≤ 2 ^ 64
      → batches fuel current to_block
        ≡ (faultless w, ok (node.get_logs current to_block topic1 topic2))
  batches_all zero current to_block h f m = absurd (omega arith)
  batches_all (suc fuel) current to_block h f m = elim (Bool-cases (leb to_block (current + 999))) [
    | inl last ↦
        let end : batch_end current to_block ≡ to_block = ground arith in
        let next : saturating_suc (batch_end current to_block) ≡ to_block + 1 = ground arith in
        let fuel_left : fuel ≡ suc (fuel - 1) = omega arith in
        one_batch fuel current to_block [] h (rw (next, fuel_left) (no_batch (fuel - 1) to_block))
        ∙ rw (end, append-nil) refl
    | inr more ↦
        let end : batch_end current to_block ≡ current + 999 = ground arith in
        let next : saturating_suc (batch_end current to_block) ≡ current + 999 + 1 = ground arith in
        one_batch fuel current to_block (node.get_logs (current + 999 + 1) to_block topic1 topic2) h
          (rw next (batches_all fuel (current + 999 + 1) to_block (ground arith) (ground arith) m))
        ∙ rw
            (end, parts topic1 topic2 current (current + 999) to_block (omega arith) (ground arith))
            refl
  ]

  -- For a node that is additive over ranges, a last block at least a batch below 2^64, and when no
  -- call fails, the loop ends and returns the logs of the whole range, or none if the range is
  -- empty.
  pub fetch_transfers_with_topics-get_logs :
      (from_block to_block : ℕ)
      → to_block + range_batch_size ≤ 2 ^ 64
      → fetch_transfers_with_topics node from_block to_block topic1 topic2 (faultless w) ≡ (
        faultless w,
        ok (
            if ltb to_block from_block
            then []
            else node.get_logs from_block to_block topic1 topic2),
      )
  unfolding fetch_transfers_with_topics
  fetch_transfers_with_topics-get_logs from_block to_block m =
      elim (Bool-cases (ltb to_block from_block)) [
        | inl none_left ↦ rw none_left refl
        | inr some_left ↦ rw some_left (
            batches_all (to_block - from_block + 2) from_block to_block (ground arith)
              (ground arith) m)
      ]
