-- ===== src/Binmap/Storage.antt =====
-- The file of a map: GetData, SetFileName, SetData and SetLastChunk of Binmap.cpp, over the stream
-- functions of the C library. A write that the system cuts short is not modelled.
pub mod Laws
pub mod Marks
use ppsp.Common.{
  ℕ, zero, suc, ◌+◌, Bool, true, false, ◌&&◌, Option, none, some, List, [], ◌∷◌, length, take, drop,
  if◌then◌else◌, ◌==◌,
}
use ppsp.Common.Int.{ℤ, pos, negsuc, ◌+ℤ◌, ◌-ℤ◌, ◌*ℤ◌, ltb_ℤ, eqb_ℤ}
use ppsp.Binmap.{Range, Binmap, set_have}
use ppsp.Binmap.Requests.{release_requested, rounds}
use ppsp.Message.Buffer.{copy_out}

-- `bytes` over the bytes of the file from its start on, and from an offset on. The gap that a write
-- behind the end leaves is filled with zeros.
overlay : List ℕ → List ℕ → List ℕ
overlay [] file = file
overlay (x ∷ xs) [] = x ∷ xs
overlay (x ∷ xs) (y ∷ ys) = x ∷ overlay xs ys

pub write_at : ℕ → List ℕ → List ℕ → List ℕ
unfolding overlay
write_at zero bytes file = overlay bytes file
write_at (suc n) bytes [] = 0 ∷ write_at n bytes []
write_at (suc n) bytes (y ∷ ys) = y ∷ write_at n bytes ys

-- `fseek(FilePointer, offset, SEEK_SET)` fails on a negative offset, and then the position stays.
abbrev pub seek : ℤ → ℕ → ℕ
seek (pos n) position = n
seek (negsuc n) position = position

-- `fopen(…, "r+b")` wants a file that exists.
open_to_read : Binmap → Binmap
open_to_read b =
    if b.opened
    then b
    else elim b.disk [ none ↦ b | some bytes ↦ record b { opened = true; position = 0 } ]

abbrev bytes_of : Option (List ℕ) → List ℕ
bytes_of none = []
bytes_of (some held) = held

-- Allocates `size` bytes, returns the bytes read and sets `*length`: null if there is no file. A
-- negative size is a fault.
pub data Read : Type 0 where
  null fault : Read
  content : List ℕ → Read

pub get_data : Binmap → ℤ → ℤ → Binmap × Read
unfolding open_to_read
get_data b size index =
    let b' = open_to_read b in
    if b'.opened
    then elim size [
      | negsuc k ↦ (b', fault)
      | pos n ↦
          let from = seek (index *ℤ pos n) b'.position in
          let read = take n (drop from (bytes_of b'.disk)) in
          (record b' { position = from + length read }, content read)
    ]
    else (b', null)

unfoldable pub set_file_name : Binmap → List ℕ → Binmap
set_file_name b name = record b { file_name = name }

pub set_last_chunk : Binmap → ℤ → ℤ → Binmap
set_last_chunk b last size = record b { last_chunk = last; last_chunk_size = size }

-- `fopen(…, "w+b")` makes the file empty; `can_create` says whether the system lets it.
pub open_to_write : Bool → Binmap → Binmap
open_to_write can_create b =
    if b.opened
    then b
    else if can_create
    then record b { disk = some []; opened = true; position = 0 }
    else b

-- `for (int i = start; i <= end; i++) ReleaseRequested(i);`
release_all : ℕ → ℤ → Binmap → Binmap
release_all zero i b = b
release_all (suc n) i b = release_all n (i +ℤ pos 1) (release_requested b i)

pub data_size : Binmap → ℤ → ℤ → ℤ → ℤ
data_size b start end size =
    let whole = size *ℤ (end -ℤ start +ℤ pos 1) in
    if eqb_ℤ end b.last_chunk then whole -ℤ (size -ℤ b.last_chunk_size) else whole

-- The end of SetData, with what it does to LastChunkSize; the test on the first digits of the
-- numbers decides about a line of the log only.
pub logged : Binmap → ℤ → Binmap
logged b end = record b {
  last_chunk_size =
      if ltb_ℤ b.log_print_size end && eqb_ℤ b.log_print_size b.last_chunk
      then pos 0
      else b.last_chunk_size;
  log_print_size = end;
}

pub write : Binmap → ℤ → List ℕ → Binmap
write b offset [] = record b { position = seek offset b.position }
write b offset (x ∷ xs) =
    let from = seek offset b.position in
    record b {
      disk = some (write_at from (x ∷ xs) (bytes_of b.disk));
      position = from + length (x ∷ xs);
    }

-- `data` is null or an array. `none`: fewer bytes in the array than are written, or a negative size.
pub set_data : Bool → Binmap → ℤ → ℤ → ℤ → Option (List ℕ) → Option (Binmap × ℤ)
unfolding open_to_write release_all data_size logged write
set_data can_create b start end size payload =
    let b' = open_to_write can_create b in
    elim payload [
      | none ↦ some (b', pos 0)
      | some source ↦
          if b'.opened
          then (let have = release_all (rounds start end) start (set_have b' start end) in
              elim (copy_out (data_size have start end size) source) [
                | none ↦ none
                | some bytes ↦
                    some (logged (write have (start *ℤ size) bytes) end, pos (length bytes))
              ])
          else some (b', pos 0)
    ]
