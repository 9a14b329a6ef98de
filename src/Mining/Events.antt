-- ===== src/Mining/Events.antt =====
-- x/nvx/keeper/mining.go: the table of the halvings, whose rewards are float64.
use nuvex.Base.{ℕ, zero, suc, ◌+◌, ◌*◌, List, [], ◌∷◌, String}
use Prim.Native.String.{◌++◌}
use nuvex.Base.Float.{Float}
use nuvex.Base.Word.{Int64, ◌*64◌}
use nuvex.Mining.{initial_block_reward, blocks_per_halving, genesis_year, max_halvings}

pub record HalvingEvent (F : Type 0) : Type 0 where
  pub epoch : ℕ
  pub year : ℕ
  pub block : Int64
  pub reward : F
  pub date : String

module _ (fl : Float) (january : ℕ → String) where
  -- `january` is the text of the year's first month.
  unfoldable pub halving_event : ℕ → fl.F → HalvingEvent fl.F
  halving_event i reward = record {
    epoch = i;
    year = genesis_year + i * 5;
    block = i *64 blocks_per_halving;
    reward = reward;
    date = "~" ++ january (genesis_year + i * 5);
  }

  -- The rounds of the loop from the i-th on, so many of them.
  unfoldable pub halving_events : ℕ → ℕ → fl.F → List (HalvingEvent fl.F)
  unfolding halving_event
  halving_events i zero reward = []
  halving_events i (suc count) reward =
      halving_event i reward ∷ halving_events (suc i) count (fl.div reward (fl.literal 2 1))

  unfoldable pub get_halving_schedule : List (HalvingEvent fl.F)
  unfolding halving_events
  get_halving_schedule =
      halving_events 0 (max_halvings + 1)
        (fl.div (fl.of_uint initial_block_reward) (fl.literal 1_000_000 1))
