-- ===== src/Bitpacking/Lanes.antt =====
-- A loop over the lanes does its body once in every lane, each on that lane's own words.
use tsubasa.Base.{ℕ, ◌+◌, ◌≤◌, ◌<◌, ◌≡◌, refl, ◌⊎◌, arith}
use tsubasa.Base.Loop.{for_range, for_range_inv}
use tsubasa.Base.Memory.{Memory, write_self}
use tsubasa.Bitpacking.Code.{Statement, State, registers, after, lane}

-- `t` is `s` after the rounds 0 to k - 1 of the loop of `c`.
pub record LanesDone (wordsize : ℕ) (input : Memory) (c : Statement) (s : State) (k : ℕ) (t : State)
    : Type 0 where
  pub data_same : t.data_at ≡ s.data_at
  pub result_same : t.result_at ≡ s.result_at
  pub vector_done : (i : ℕ) → i < k → t.result_vector i ≡ (after wordsize input c s i).vector
  pub stored_done :
      (i : ℕ) → i < k → t.result (s.result_at + i) ≡ (after wordsize input c s i).stored
  pub vector_ahead : (i : ℕ) → k ≤ i → t.result_vector i ≡ s.result_vector i
  pub tmp_ahead : (i : ℕ) → k ≤ i → t.tmp_vector i ≡ s.tmp_vector i
  pub result_apart : (a : ℕ) → (a < s.result_at) ⊎ (s.result_at + k ≤ a) → t.result a ≡ s.result a

module _ (wordsize : ℕ) (input : Memory) (c : Statement) where
  after_congr :
      (s t : State) (i : ℕ)
      → t.data_at ≡ s.data_at
      → registers t i ≡ registers s i
      → after wordsize input c t i ≡ after wordsize input c s i
  after_congr s t i e f = cc

  registers_congr :
      (s t : State) (k : ℕ) → LanesDone wordsize input c s k t → registers t k ≡ registers s k
  registers_congr s t k d =
      ground (arith, d.vector_ahead k, d.tmp_ahead k, d.result_apart (s.result_at + k))

  LanesDone-lane :
      (s t : State) (k : ℕ)
      → LanesDone wordsize input c s k t
      → LanesDone wordsize input c s (k + 1) (lane wordsize input c k t)
  LanesDone-lane s t k d =
      let same = after_congr s t k d.data_same (registers_congr s t k d) in
      record {
        data_same = d.data_same;
        result_same = d.result_same;
        vector_done = λ i h. ground (
          arith,
          d.vector_done i,
          same,
          write_self t.result_vector k (after wordsize input c t k).vector,
        );
        stored_done = λ i h. ground (arith, d.stored_done i, same);
        vector_ahead = λ i h. ground (arith, d.vector_ahead i);
        tmp_ahead = λ i h. ground (arith, d.tmp_ahead i);
        result_apart = λ a h. ground (arith, d.result_apart a);
      }

  pub for_range-LanesDone :
      (lanes : ℕ) (s : State)
      → LanesDone wordsize input c s lanes (for_range lanes 0 (lane wordsize input c) s)
  for_range-LanesDone lanes s =
      for_range_inv (LanesDone wordsize input c s) (lane wordsize input c) lanes 0 lanes
        (omega arith) (λ k t lo hi d. LanesDone-lane s t k d) s
        (record {
          data_same = refl;
          result_same = refl;
          vector_done = λ i h. absurd (omega arith);
          stored_done = λ i h. absurd (omega arith);
          vector_ahead = λ i h. refl;
          tmp_ahead = λ i h. refl;
          result_apart = λ i h. refl;
        })
