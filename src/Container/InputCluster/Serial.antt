-- ===== src/Container/InputCluster/Serial.antt =====
-- InputCluster::Serialize and InputCluster::Deserialize.
use vfuzz.Prelude.{
  ℕ, zero, suc, ◌+◌, ◌≡◌, refl, List, [], ◌∷◌, ◌++◌, length, if◌then◌else◌, Result, ok, err,
  deserialization, ◌>>=◌, arith, append_assoc, append-nil,
}
use vfuzz.OrdMap.{OrdMap}
use vfuzz.Codec.Words.{Chunk, u64, length-le_bytes}
use vfuzz.Codec.Cursor.{Cursor, start, read_u64, read_bytes}
use vfuzz.Codec.Buffer.{Writer, sized, filled, write, write-filled}
use vfuzz.Container.Input.{Input, fresh}
use vfuzz.Container.Input.Serial
use vfuzz.Container.InputCluster.{InputCluster, have_gid, set_input}

-- The tuple that Serialize keeps of each input: its generator and its serialization. The size, the
-- tuple's second component, is that of the third.
pub record Item : Type 0 where
  pub gid : ℕ
  pub body : Chunk

unfoldable pub serialized_inputs : OrdMap Input → Result (List Item)
serialized_inputs [] = ok []
serialized_inputs ((gid, i) ∷ m) = do
  body ← Serial.serialize i
  items ← serialized_inputs m
  ok (record { gid = gid; body = body } ∷ items)

unfoldable pub items_size : List Item → ℕ
items_size [] = 0
items_size (item ∷ items) = 8 + 8 + length item.body + items_size items

unfoldable pub write_items : List Item → Writer → Result Writer
write_items [] w = ok w
write_items (item ∷ items) w = do
  w ← write (u64 item.gid) w
  w ← write (u64 (length item.body)) w
  w ← write item.body w
  write_items items w

-- Serialize
unfoldable pub serialize : InputCluster → Result Chunk
unfolding serialized_inputs items_size write_items
serialize c = do
  items ← serialized_inputs c.cluster
  w ← write (u64 (length c.cluster)) (sized (8 + items_size items))
  w ← write_items items w
  ok w.buffer

-- The loop of Deserialize, over the inputs that `numInputs` still promises.
unfoldable pub read_inputs : Chunk → ℕ → Cursor → InputCluster → Result InputCluster
unfolding have_gid set_input
read_inputs s zero c ic = ok ic
read_inputs s (suc left) c ic = do
  (gid, c) ← read_u64 s c
  if have_gid gid ic then err deserialization else (do
    (n, c) ← read_u64 s c
    (body, c) ← read_bytes s n c
    i ← Serial.deserialize body fresh
    read_inputs s left c (set_input gid i ic))

-- Deserialize
unfoldable pub deserialize : Chunk → InputCluster → Result InputCluster
unfolding read_inputs
deserialize s ic = do (total, c) ← read_u64 s (start s); read_inputs s total c ic

-- The bytes of a cluster: the number of inputs, then for each its generator, the size of its
-- layout and the layout.
unfoldable pub inputs_layout : OrdMap Input → Chunk
inputs_layout [] = []
inputs_layout ((gid, i) ∷ m) =
    let body = Serial.layout i in u64 gid ++ (u64 (length body) ++ (body ++ inputs_layout m))

unfoldable pub layout : InputCluster → Chunk
unfolding inputs_layout
layout c = u64 (length c.cluster) ++ inputs_layout c.cluster

abbrev items_of : OrdMap Input → List Item
items_of [] = []
items_of ((gid, i) ∷ m) = record { gid = gid; body = Serial.layout i } ∷ items_of m

serialized_inputs-items_of : (m : OrdMap Input) → serialized_inputs m ≡ ok (items_of m)
unfolding serialized_inputs
serialized_inputs-items_of [] = refl
serialized_inputs-items_of ((gid, i) ∷ m) =
    rw (Serial.serialize-layout i, serialized_inputs-items_of m)

write_items-filled :
    (m : OrdMap Input) (done : Chunk) (room : ℕ)
    → write_items (items_of m) (filled done (items_size (items_of m) + room))
      ≡ ok (filled (done ++ inputs_layout m) room)
unfolding write_items items_size inputs_layout
write_items-filled [] done room = let e : 0 + room ≡ room = omega arith in rw (e, append-nil)
write_items-filled ((gid, i) ∷ m) done room =
    let body = Serial.layout i in
    let word = u64 gid in
    let count = u64 (length body) in
    let rest = items_size (items_of m) + room in
    let e : 8 + 8 + length body + items_size (items_of m) + room
        ≡ length word + (length count + (length body + rest)) =
      omega (arith, length-le_bytes 8 gid, length-le_bytes 8 (length body)) in
    rw
      (
        e,
        write-filled word done (length count + (length body + rest)),
        write-filled count (done ++ word) (length body + rest),
        write-filled body ((done ++ word) ++ count) rest,
        write_items-filled m (((done ++ word) ++ count) ++ body) room,
      )
      (simp append_assoc)

-- Serialize never writes past the vector that it sized, and fills it with the layout.
pub serialize-layout : (c : InputCluster) → serialize c ≡ ok (layout c)
unfolding serialize layout
serialize-layout c =
    let word = u64 (length c.cluster) in
    let size = items_size (items_of c.cluster) in
    let e : 8 + size ≡ length word + (size + 0) =
      omega (arith, length-le_bytes 8 (length c.cluster)) in
    rw
      (
        serialized_inputs-items_of c.cluster,
        e,
        write-filled word [] (size + 0),
        write_items-filled c.cluster word 0,
      )
      (simp append-nil)
