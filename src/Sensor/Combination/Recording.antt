-- ===== src/Sensor/Combination/Recording.antt =====
-- What a combined sensor's processor gets of a recording.
use vfuzz.Prelude.{
  ℕ, ◌≡◌, refl, sym, ap, ◌∙◌, Bool, true, false, ◌||◌, List, [], ◌∷◌, ◌++◌, map, length, is_empty,
  Result, ok, err, ◌>>=◌, ◌==◌, if◌then◌else◌, append-nil, append_assoc, Bool-cases, inl, inr,
}
use vfuzz.Sensor.Base.{stop}
use vfuzz.Sensor.Processor.{Processor, receive_input}
use vfuzz.Sensor.Combination.{
  SensorProcessor, final_value, receive_row, receive_rows, stop_all, internal_receive_input,
  receive_calls,
}

-- ReceiveInput for each value in turn.
unfoldable pub receive_list : ℕ → List ℕ → Processor → Result Processor
receive_list junk [] q = ok q
receive_list junk (v ∷ values) q = do q ← receive_input junk v q; receive_list junk values q

-- Every value of the first list with every one of the second.
abbrev pub pairs : List ℕ → List ℕ → List ℕ
pairs [] bs = []
pairs (a ∷ more) bs = map (final_value a) bs ++ pairs more bs

-- The values that come from the sensor with the ID, and the other ones.
abbrev pub values_of : ℕ → List (ℕ × ℕ) → List ℕ
values_of first [] = []
values_of first ((id, value) ∷ calls) =
    if id == first then value ∷ values_of first calls else values_of first calls

abbrev pub values_not_of : ℕ → List (ℕ × ℕ) → List ℕ
values_not_of first [] = []
values_not_of first ((id, value) ∷ calls) =
    if id == first then values_not_of first calls else value ∷ values_not_of first calls

chain_assoc {ℓ} :
    {A B C : Type ℓ} (m : Result A) (f : A → Result B) (g : B → Result C)
    → ((m >>= f) >>= g) ≡ (m >>= λ a. f a >>= g)
chain_assoc (ok a) f g = refl
chain_assoc (err e) f g = refl

chain_cong {ℓ} :
    {A B : Type ℓ} (m : Result A) (f g : A → Result B)
    → ((a : A) → f a ≡ g a)
    → (m >>= f) ≡ (m >>= g)
chain_cong (ok a) f g h = h a
chain_cong (err e) f g h = refl

receive_list-append :
    (junk : ℕ) (xs ys : List ℕ) (q : Processor)
    → receive_list junk (xs ++ ys) q ≡ (receive_list junk xs q >>= receive_list junk ys)
unfolding receive_list
receive_list-append junk [] ys q = refl
receive_list-append junk (x ∷ xs) ys q =
    chain_cong (receive_input junk x q) _ _ (λ r. receive_list-append junk xs ys r)
    ∙ sym (chain_assoc (receive_input junk x q) (receive_list junk xs) (receive_list junk ys))

receive_row-list :
    (junk a : ℕ) (bs : List ℕ) (q : Processor)
    → receive_row junk a bs q ≡ receive_list junk (map (final_value a) bs) q
unfolding receive_row receive_list
receive_row-list junk a [] q = refl
receive_row-list junk a (b ∷ bs) q =
    chain_cong (receive_input junk (final_value a b) q) _ _ (λ r. receive_row-list junk a bs r)

receive_rows-list :
    (junk : ℕ) (xs bs : List ℕ) (q : Processor)
    → receive_rows junk xs bs q ≡ receive_list junk (pairs xs bs) q
unfolding receive_rows receive_list
receive_rows-list junk [] bs q = refl
receive_rows-list junk (a ∷ more) bs q =
    ap (λ m. m >>= receive_rows junk more bs) (receive_row-list junk a bs q)
    ∙ chain_cong (receive_list junk (map (final_value a) bs) q) _ _ (receive_rows-list junk more bs)
    ∙ sym (receive_list-append junk (map (final_value a) bs) (pairs more bs) q)

pairs-nil : (xs : List ℕ) → pairs xs [] ≡ []
pairs-nil [] = refl
pairs-nil (a ∷ more) = pairs-nil more

-- The buffers of a combined sensor with what a recording adds to them.
abbrev with_buffers : List ℕ → List ℕ → SensorProcessor → SensorProcessor
with_buffers xs ys p = record p {
  data_sensor1 = p.data_sensor1 ++ xs;
  data_sensor2 = p.data_sensor2 ++ ys;
}

receive_calls-buffers :
    (junk : ℕ) (calls : List (ℕ × ℕ)) (p : SensorProcessor)
    → length p.sensors ≡ 2
    → receive_calls junk calls p
      ≡ ok (
          with_buffers
            (values_of p.first_sensor_id calls)
            (values_not_of p.first_sensor_id calls)
            p)
unfolding receive_calls internal_receive_input
receive_calls-buffers junk [] p two = rw (append-nil p.data_sensor1, append-nil p.data_sensor2) refl
receive_calls-buffers junk ((id, value) ∷ calls) p two =
    elim (Bool-cases (id == p.first_sensor_id)) [
      | inl own ↦
          let e =
            receive_calls-buffers junk calls
              (record p { data_sensor1 = p.data_sensor1 ++ (value ∷ []) }) two in
          rw (two, own)
            (e
              ∙ ap
                  (λ xs. ok (record p {
                    data_sensor1 = xs;
                    data_sensor2 = p.data_sensor2 ++ values_not_of p.first_sensor_id calls;
                  }))
                  (append_assoc p.data_sensor1 (value ∷ []) (values_of p.first_sensor_id calls)))
      | inr other ↦
          let e =
            receive_calls-buffers junk calls
              (record p { data_sensor2 = p.data_sensor2 ++ (value ∷ []) }) two in
          rw (two, other)
            (e
              ∙ ap
                  (λ ys. ok (record p {
                    data_sensor1 = p.data_sensor1 ++ values_of p.first_sensor_id calls;
                    data_sensor2 = ys;
                  }))
                  (append_assoc p.data_sensor2 (value ∷ [])
                    (values_not_of p.first_sensor_id calls)))
    ]

pair-path : {A B : Type 0} {a a' : A} {b b' : B} → a ≡ a' → b ≡ b' → ◌≡◌ {A = A × B} (a, b) (a', b')
pair-path {a' = a'} {b = b} e f = ap (λ x. (x, b)) e ∙ ap (λ y. (a', y)) f

-- The part of Stop that feeds the processor.
fed-pairs :
    (junk : ℕ) (xs ys : List ℕ) (q : Processor)
    → (if is_empty xs || is_empty ys then ok q else receive_rows junk xs ys q)
      ≡ receive_list junk (pairs xs ys) q
unfolding receive_list
fed-pairs junk [] ys q = refl
fed-pairs junk (a ∷ more) [] q = ap (λ l. receive_list junk l q) (sym (pairs-nil more))
fed-pairs junk (a ∷ more) (b ∷ bs) q = receive_rows-list junk (a ∷ more) (b ∷ bs) q

fed-all :
    (junk : ℕ) (off : Bool) (n : ℕ) (xs ys : List ℕ) (q : Processor)
    → n ≡ 2
    → (if off || n == 1 || is_empty xs || is_empty ys then ok q else receive_rows junk xs ys q)
      ≡ receive_list junk (if off then [] else pairs xs ys) q
unfolding receive_list
fed-all junk true n xs ys q two = refl
fed-all junk false n xs ys q two = rw two (fed-pairs junk xs ys q)

-- The end of Stop.
abbrev pub finished : SensorProcessor → Processor → SensorProcessor
finished p q = record p {
  sensors = map stop p.sensors;
  processor = q;
  data_sensor1 = [];
  data_sensor2 = [];
}

-- A SensorProcessor of two sensors that holds no values, which gets a sequence of values from them
-- and is then stopped: its processor receives every value of the first sensor paired with every one
-- of the other, the first sensor's in the outer loop and both in the order in which they came, or
-- nothing if the SensorProcessor is disabled; the values are forgotten and the sensors stopped, and
-- nothing else changes.
pub stop_all-pairs :
    (junk : ℕ) (calls : List (ℕ × ℕ)) (p : SensorProcessor)
    → length p.sensors ≡ 2
    → p.data_sensor1 ≡ []
    → p.data_sensor2 ≡ []
    → (receive_calls junk calls p >>= stop_all junk) ≡ (
        receive_list junk
          (if p.disabled
            then []
            else pairs (values_of p.first_sensor_id calls) (values_not_of p.first_sensor_id calls))
          p.processor
        >>= λ q. ok (finished p q))
unfolding stop_all receive_list
stop_all-pairs junk calls p two no_first no_second =
    let xs = values_of p.first_sensor_id calls in
    let ys = values_not_of p.first_sensor_id calls in
    let held : receive_calls junk calls p ≡ ok (record p { data_sensor1 = xs; data_sensor2 = ys }) =
      receive_calls-buffers junk calls p two
      ∙ ap (λ d. ok (record p { data_sensor1 = d.0 ++ xs; data_sensor2 = d.1 ++ ys }))
          (pair-path no_first no_second) in
    ap (λ m. m >>= stop_all junk) held
    ∙ ap (λ m. m >>= λ q. ok (finished p q))
        (fed-all junk p.disabled (length p.sensors) xs ys p.processor two)
