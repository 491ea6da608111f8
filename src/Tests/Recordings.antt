-- ===== src/Tests/Recordings.antt =====
-- A container with one custom sensor, and the theorems about the sensors at it.
use vfuzz.Prelude.{
  ℕ, ◌≡◌, refl, true, false, List, [], ◌∷◌, ok, err, runtime_error, ◌+◌, nth, arith,
}
use mathlib.Core.Path.{subst}
use vfuzz.OrdMap.{lookup, contains, assign, insert, erase}
use vfuzz.Sensor.Base.{BaseSensor}
use vfuzz.Sensor.Base as Base
use vfuzz.Sensor.Processor.{new_highest}
use vfuzz.Sensor.Processor as Processor
use vfuzz.Sensor.Profile.{ValueBitMap}
use vfuzz.Sensor.Store.{Store, Object, Node, Receiver, deliver}
use vfuzz.Sensor.Store as Store
use vfuzz.Sensor.Store.Telling.{IsTold, deliver-IsTold}
use vfuzz.Sensor.Container.{
  Container, Memory, new_processor, combine_sensors, add_custom_if_not_exists, sensor_get_value,
  stop,
}
use vfuzz.Sensor.Container.Validity.{Orderly, IsValid, SameLinks}
use vfuzz.Sensor.Container.Switching.{stop-Switches}
use vfuzz.Sensor.Container.Combining.{Combines, combine_sensors-Orderly}
use vfuzz.Sensor.Container.Customs.{CustomAt, add_custom_if_not_exists-Orderly}
use vfuzz.Driver.{Driver, Platform, sensor_callback}
use vfuzz.Driver.Recording.{new_container}
use vfuzz.Driver.Callbacks.{sensor_callback-Orderly}
use vfuzz.Driver.Histories.{
  Step, new_container-IsValid, callback, record_on, record_off, take_steps, unset,
  get_value-throws_always,
}

-- A bitmap that holds the list of its bits.
abbrev bits : ValueBitMap (List ℕ)
bits = record {
  reset = λ b. [];
  add_value = λ n b. n ∷ b;
  add_value_mod_prime = λ n b. n ∷ b;
  set_bits = λ b. b;
}

abbrev memory : Memory
memory = record { address = λ n. 4096 + n; is_updated = λ n. false; lowest = 0 }

abbrev platform : Platform (List ℕ)
platform = record {
  bitmap = bits;
  memory = memory;
  bits = [];
  builtin_id = λ t. 0;
  single_max_id = 1;
  cmp_diff_id = 2;
  auto_intensity_id = 3;
}

-- The custom sensor 7, with a ProcessorHighest.
abbrev made : Container (List ℕ)
made = record new_container {
  store = record {
    objects =
        record {
          sensor = Store.custom (Base.set_on_ready (Base.new 4096 false 0));
          receiver = Receiver.to 1;
        }
        ∷ record {
          sensor = Store.processor (Base.set_on_ready (Base.new 4097 false 7)) (record {
            sensors = 0 ∷ [];
            processor = Processor.set_on_add_val (new_processor new_highest);
            name = [];
            data_sensor1 = [];
            data_sensor2 = [];
            disabled = false;
            first_sensor_id = 4096;
          });
          receiver = Receiver.the_data;
        }
        ∷ [];
    sensor_data = record { increase = 0 };
  };
  id_to_sensor_processor = (7, 1) ∷ [];
  id_to_custom_sensor = (7, 0) ∷ [];
  builtin_type_to_sensors = (0, ((0, tt) ∷ [])) ∷ [];
  custom_to_processor_type = (7, 1) ∷ [];
  created_sensors = (1, tt) ∷ [];
}

made_by : add_custom_if_not_exists memory 7 1 new_container ≡ ok (0, made)
unfolding add_custom_if_not_exists contains Store.for_each Store.modify nth lookup Store.on_base
    assign Base.get_id insert erase Store.base_of
made_by = refl

made-CustomAt : CustomAt {B = List ℕ} 7 new_container (0, made)
made-CustomAt =
    subst (Orderly (CustomAt 7 new_container)) made_by
      (add_custom_if_not_exists-Orderly memory 7 1 new_container new_container-IsValid)

deliver-IsTold_example :
    (s' : Store (List ℕ)) × (deliver 0 1 (Receiver.to 1) 4096 5 made.store ≡ ok s')
    × IsTold 0 made.store s'
deliver-IsTold_example =
    deliver-IsTold 0 1 0 (Receiver.to 1) 4096 5 made.store (omega arith) made-CustomAt.0.0.0
      (made-CustomAt.0.0.0.linked.leads 0 _ refl)

stop-Switches_example :
    (c' : Container (List ℕ)) × (stop bits memory made ≡ ok c') × IsValid c' × SameLinks made c'
stop-Switches_example = stop-Switches bits memory made made-CustomAt.0.0

-- Two calls of sensor_callback between StartRecord and StopRecord.
abbrev recorded : List Step
recorded = record_on ∷ callback 7 3 1 ∷ callback 7 5 1 ∷ record_off ∷ []

get_value-throws_always_example :
    Orderly
      (λ (d : Driver (List ℕ)). sensor_get_value 7 d.container ≡ err runtime_error)
      (take_steps platform recorded (unset false))
get_value-throws_always_example = get_value-throws_always platform false recorded 7

combine_sensors-Orderly_example :
    Orderly (Combines 9 7 7 1 made) (combine_sensors memory 9 7 7 1 made)
combine_sensors-Orderly_example = combine_sensors-Orderly memory 9 7 7 1 made made-CustomAt.0.0

abbrev driver : Driver (List ℕ)
driver = record { container = made; is_global = true }

sensor_callback-Orderly_example :
    Orderly (λ (d : Driver (List ℕ)). IsValid d.container) (sensor_callback platform 7 3 1 driver)
sensor_callback-Orderly_example = sensor_callback-Orderly platform 7 3 1 driver made-CustomAt.0.0
