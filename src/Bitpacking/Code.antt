-- ===== src/Bitpacking/Code.antt =====
-- The statements that the bodies of `vertical_bitpacking::pack` in bitpacking_impl.h are made of,
-- and what they do. bitpacking_generator.cpp prints one loop over the lanes of a vector for each
-- of the first five, and a pointer increment for each of the last two.
use tsubasa.Base.{ℕ, ◌+◌, ◌*◌, ◌/◌, ◌%◌, ◌^◌, List, [], ◌∷◌, bit_or}
use tsubasa.Base.Loop.{for_range}
use tsubasa.Base.Memory.{Memory, write}

pub data Statement : Type 0 where
  load_init : Statement
  load_or_shift : ℕ → Statement
  store_result : ℕ → Statement
  store_result_remainder : ℕ → ℕ → Statement
  copy : Statement
  increment_data : Statement
  increment_result : Statement

-- `x << shift` and `x >> shift` on words of the given size.
abbrev pub shift_left : ℕ → ℕ → ℕ → ℕ
shift_left wordsize x shift = x * 2 ^ shift % 2 ^ wordsize

abbrev pub shift_right : ℕ → ℕ → ℕ
shift_right x shift = x / 2 ^ shift

-- The words that one round of a lane loop reads and assigns: `result[ chunk_inner_pos ]`,
-- `result_vector[ chunk_inner_pos ]` and `tmp_vector[ chunk_inner_pos ]`.
pub record Registers : Type 0 where
  pub stored : ℕ
  pub vector : ℕ
  pub tmp : ℕ

-- The body of a lane loop. `word` is `data[ chunk_inner_pos ]`.
unfoldable pub loop_body : ℕ → Statement → ℕ → Registers → Registers
loop_body wordsize load_init word r = record r { vector = word }
loop_body wordsize (load_or_shift shift) word r = record r {
  vector = bit_or r.vector (shift_left wordsize word shift);
}
loop_body wordsize (store_result shift) word r = record r {
  stored = bit_or r.vector (shift_left wordsize word shift);
}
loop_body wordsize (store_result_remainder left right) word r = record {
  stored = bit_or r.vector (shift_left wordsize word left);
  vector = shift_right word right;
  tmp = word;
}
loop_body wordsize copy word r = record r { stored = word }
loop_body wordsize increment_data word r = r
loop_body wordsize increment_result word r = r

-- The local variables of `pack`, and the memory that `result` points into.
pub record State : Type 0 where
  pub data_at : ℕ
  pub result_at : ℕ
  pub result_vector : Memory
  pub tmp_vector : Memory
  pub result : Memory

abbrev pub registers : State → ℕ → Registers
registers s i = record {
  stored = s.result (s.result_at + i);
  vector = s.result_vector i;
  tmp = s.tmp_vector i;
}

-- `input` is the memory that `data` points into.
module _ (wordsize : ℕ) (input : Memory) where
  -- What one round of the loop of a statement makes of its words.

  abbrev pub after : Statement → State → ℕ → Registers
  after c s i = loop_body wordsize c (input (s.data_at + i)) (registers s i)

  -- One round of the loop of `c`.
  abbrev pub lane : Statement → ℕ → State → State
  lane c i s = record s {
    result_vector = write s.result_vector i (after c s i).vector;
    tmp_vector = write s.tmp_vector i (after c s i).tmp;
    result = write s.result (s.result_at + i) (after c s i).stored;
  }

-- `lanes` is VE_CORE_VPU_VR_ELEMENT_COUNT.
module _ (wordsize lanes : ℕ) (input : Memory) where
  unfoldable pub step : Statement → State → State
  unfolding for_range loop_body
  step increment_data s = record s { data_at = s.data_at + lanes }
  step increment_result s = record s { result_at = s.result_at + lanes }
  step load_init s = for_range lanes 0 (lane wordsize input load_init) s
  step (load_or_shift shift) s = for_range lanes 0 (lane wordsize input (load_or_shift shift)) s
  step (store_result shift) s = for_range lanes 0 (lane wordsize input (store_result shift)) s
  step (store_result_remainder l r) s =
      for_range lanes 0 (lane wordsize input (store_result_remainder l r)) s
  step copy s = for_range lanes 0 (lane wordsize input copy) s

  unfoldable pub exec : List Statement → State → State
  unfolding step
  exec [] s = s
  exec (c ∷ cs) s = exec cs (step c s)
