-- ===== src/Mutator/Base/Inserting.antt =====
-- Split and InsertPartOf.
use vfuzz.Prelude.{
  ℕ, ◌+◌, ◌-◌, ◌≤◌, ◌<◌, ◌≡◌, ap, ◌∙◌, Bool, true, false, [], ◌++◌, length, take, drop, replicate,
  min, leb, if◌then◌else◌, ok, arith, length-append, length-take, length-drop, length-replicate,
  append-nil, take-append_le, drop-append_le, take-take_le, take-append_eq, drop-append_eq,
  drop_past,
}
use vfuzz.Codec.Words.{Chunk}
use vfuzz.Codec.Cursor.{memcpy_from}
use vfuzz.Codec.Buffer.{memcpy_to}
use vfuzz.Util.Rand.{below, below_lt}
use vfuzz.Util.World.{World, ◌>>=◌, run}
use vfuzz.Mutator.Base.{split, insert_part_of}
use vfuzz.Mutator.Base.Parts.{
  segment, overwrite, memcpy_from-segment, memcpy_to-overwrite, length-segment,
  random_range-Returns, source_fits,
}

-- The chunk `room` is `dest` with `count` bytes of any value put in at `pos`.
pub record IsRoom (dest : Chunk) (pos count : ℕ) (room : Chunk) : Type 0 where
  pub size : length room ≡ length dest + count
  pub before : take pos room ≡ take pos dest
  pub after : drop (pos + count) room ≡ drop pos dest

split_tail :
    (dest : Chunk) (pos count : ℕ)
    → pos ≤ length dest
    → segment pos (length dest - pos) (dest ++ replicate count 0) ≡ drop pos dest
split_tail dest pos count h =
    let zeros : Chunk = replicate count 0 in
    rw (drop-append_le pos dest zeros h)
      (take-append_eq _ (drop pos dest) zeros (omega (arith, length-drop pos dest)))

pub split-IsRoom :
    (dest : Chunk) (pos count : ℕ)
    → pos ≤ length dest
    → (room : Chunk) × (split dest pos count ≡ ok room) × IsRoom dest pos count room
unfolding split
split-IsRoom dest pos count h =
    let zeros : Chunk = replicate count 0 in
    let grown = dest ++ zeros in
    let size = length-append dest zeros in
    let zeros_size = length-replicate {A = ℕ} count 0 in
    let tail = drop pos dest in
    let tail_size = length-drop pos dest in
    let read : memcpy_from grown pos (length dest - pos) ≡ ok tail =
      memcpy_from-segment grown pos (length dest - pos) (omega arith)
      ∙ ap ok (split_tail dest pos count h) in
    let front = take (pos + count) grown in
    let front_size : length front ≡ pos + count = omega (arith, length-take (pos + count) grown) in
    let none_left : drop (pos + count + length tail) grown ≡ [] = drop_past _ grown (omega arith) in
    let room = front ++ tail in
    let written : memcpy_to grown (pos + count) tail ≡ ok room =
      memcpy_to-overwrite grown tail (pos + count) (omega arith)
      ∙ ap (λ r. ok (front ++ r)) (rw (none_left, append-nil)) in
    (
      room,
      rw read written,
      record {
        size = omega (arith, length-append front tail);
        before =
            take-append_le pos front tail (omega arith)
            ∙ take-take_le pos (pos + count) grown (omega arith)
            ∙ take-append_le pos dest zeros h;
        after = drop-append_eq (pos + count) front tail (omega arith);
      },
    )

-- A write over the room fills it.
pub overwrite-IsRoom :
    (dest room bytes : Chunk) (pos : ℕ)
    → IsRoom dest pos (length bytes) room
    → overwrite pos bytes room ≡ take pos dest ++ (bytes ++ drop pos dest)
overwrite-IsRoom dest room bytes pos r = rw (r.before, r.after)

-- What InsertPartOf leaves: some bytes put in at a position. Where the chunks are two, they are a
-- segment of the source, and are what is noted as inserted.
pub record IsInserted (aliased : Bool) (dest src result inserted : Chunk) : Type 0 where
  pub pos : ℕ
  pub first : ℕ
  pub bytes : Chunk
  pub inside : pos ≤ length dest
  pub written : result ≡ take pos dest ++ (bytes ++ drop pos dest)
  pub size : length result ≡ length dest + length bytes
  pub copied : aliased ≡ false → bytes ≡ segment first (length bytes) src
  pub noted : aliased ≡ false → inserted ≡ bytes

pub length-inserted :
    (pos : ℕ) (dest bytes : Chunk)
    → pos ≤ length dest
    → length (take pos dest ++ (bytes ++ drop pos dest)) ≡ length dest + length bytes
length-inserted pos dest bytes h = omega (
  arith,
  length-append (take pos dest) (bytes ++ drop pos dest),
  length-append bytes (drop pos dest),
  length-take pos dest,
  length-drop pos dest,
)

pub insert_part_of-Returns :
    (aliased : Bool) (dest src : Chunk) (max : ℕ) (insert : Chunk) (w : World)
    → length dest < max
    → (aliased ≡ true → src ≡ dest)
    → (result inserted : Chunk) × (w' : World) × (insert_part_of aliased dest src max insert w
        ≡ ok ((result, inserted), w'))
      × (length dest ≤ length result)
      × (length result ≤ max)
      × IsInserted aliased dest src result inserted
unfolding insert_part_of
insert_part_of-Returns aliased dest src max insert w h same =
    let (pos, r) = below (length dest + 1) w.rand in
    let pos_le = below_lt (length dest + 1) w.rand (omega arith) in
    let (first, count, w', drawn, range) =
      random_range-Returns (min (length src) (max - length dest)) (record w { rand = r }) in
    let (room, parted, is_room) = split-IsRoom dest pos count (omega arith) in
    let source = if aliased then room else src in
    let fits = source_fits aliased dest src room (omega arith) (omega (arith, is_room.size)) same in
    let bytes = segment first count source in
    let len : length bytes ≡ count = length-segment first count source fits in
    let is_room' : IsRoom dest pos (length bytes) room = rw len is_room in
    let result = overwrite pos bytes room in
    let filled = overwrite-IsRoom dest room bytes pos is_room' in
    let grown : length result ≡ length dest + count =
      ap length filled
      ∙ length-inserted pos dest bytes (omega arith)
      ∙ ap (λ n. length dest + n) len in
    let source' = if aliased then result else src in
    let fits' = source_fits aliased dest src result (omega arith) (omega arith) same in
    let too_small : leb max (length dest) ≡ false = ground arith in
    (
      result,
      segment first count source',
      w',
      rw too_small (
          rw (drawn, ◌>>=◌)
            (rw (parted, run, ◌>>=◌)
              (rw (memcpy_from-segment source first count fits, run, ◌>>=◌)
                (rw (memcpy_to-overwrite room bytes pos (omega (arith, is_room.size)), run, ◌>>=◌)
                  (rw (memcpy_from-segment source' first count fits', run, ◌>>=◌)))))),
      omega arith,
      omega arith,
      record {
        pos = pos;
        first = first;
        bytes = bytes;
        inside = omega arith;
        written = filled;
        size = omega arith;
        copied = λ e. rw (len, e);
        noted = λ e. rw e;
      },
    )
