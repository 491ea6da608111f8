-- ===== src/Tests/Choices.antt =====
-- Two mutators drawn by weight, and a combination of two sensors.
use vfuzz.Prelude.{ℕ, ◌<◌, ◌+◌, ◌^◌, ◌≡◌, refl, true, false, List, [], ◌∷◌, none, ok, ◌>>=◌, arith}
use vfuzz.Util.World.{World}
use vfuzz.Mutator.Statistics.{weight_sum, rand_mutator_by_weight}
use vfuzz.Mutator.Statistics.Weights.{Holds, rand_mutator_by_weight-Returns}
use vfuzz.Sensor.Base.{BaseSensor}
use vfuzz.Sensor.Base as Base
use vfuzz.Sensor.Processor.{Processor, new_unique}
use vfuzz.Sensor.Combination.{SensorProcessor, receive_calls, stop_all}
use vfuzz.Sensor.Combination.Recording.{receive_list, pairs, finished, stop_all-pairs}
use vfuzz.Container.Input.{Input}
use vfuzz.Mutator.Statistics.{sort_mutators}
use vfuzz.Mutator.Statistics.Counts.{IsFalling, uses, sort_mutators-IsFalling}
use vfuzz.Prelude.{All}

abbrev world : World
world = record { rand = record { tape = λ n. n; at = 5 }; history = none; visited = [] }

abbrev counts : List (ℕ × ℕ)
counts = (1, 5) ∷ (2, 3) ∷ []

small : weight_sum counts + 1 < 2 ^ 64
unfolding weight_sum
small = omega arith

-- Two inputs, of which both were changed by the mutator 1 and one by the mutator 2.
abbrev changed : List Input
changed =
    record { chunks = []; insertions = []; mutators = (1, tt) ∷ (2, tt) ∷ [] }
    ∷ record { chunks = []; insertions = []; mutators = (1, tt) ∷ [] }
    ∷ []

sort_mutators-IsFalling_example :
    IsFalling 3 (sort_mutators changed).0
    × All (λ e. e.1 ≡ uses e.0 changed) (sort_mutators changed).0
sort_mutators-IsFalling_example =
    sort_mutators-IsFalling changed ((omega arith, (omega arith, tt)), ((omega arith, tt), tt))

rand_mutator_by_weight-Returns_example :
    (a : ℕ) × (w' : World) × (rand_mutator_by_weight counts world ≡ ok (a, w')) × Holds a counts
rand_mutator_by_weight-Returns_example =
    rand_mutator_by_weight-Returns counts world (omega arith) small

abbrev processor : Processor
processor = record {
  state = new_unique;
  disabled = false;
  on_add_val = true;
  vals = [];
  passed = [];
}

-- The sensors 3 and 4, of which the first one is 3.
abbrev both : SensorProcessor
both = record {
  base = Base.new 100 false 9;
  sensors = Base.new 101 false 3 ∷ Base.new 102 false 4 ∷ [];
  processor = processor;
  data_sensor1 = [];
  data_sensor2 = [];
  disabled = false;
  first_sensor_id = 3;
}

abbrev calls : List (ℕ × ℕ)
calls = (3, 10) ∷ (4, 20) ∷ (3, 11) ∷ []

stop_all-pairs_example :
    (receive_calls 0 calls both >>= stop_all 0)
    ≡ (receive_list 0 (pairs (10 ∷ 11 ∷ []) (20 ∷ [])) processor >>= λ q. ok (finished both q))
stop_all-pairs_example = stop_all-pairs 0 calls both refl refl refl
