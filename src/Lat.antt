-- ===== src/Lat.antt =====
-- src/main/LAT.cpp: the alias table of one thread as a log of writes, with an area for the data of
-- long writes and a Bloom filter in front of the reads. The macro `latPMemCheck` is 1.
pub mod Overlay
pub mod Reads
pub mod Writes
pub mod Wrap
use softwrap.Prelude.{
  ℕ, zero, suc, ◌+◌, ◌-◌, ◌*◌, ◌/◌, ◌%◌, ◌^◌, Bool, true, false, List, [], ◌∷◌, ◌++◌, length, ltb,
  leb, ◌==◌, ◌&&◌, if◌then◌else◌, Run, ok, abort, ◌>>=◌,
}
use softwrap.Bloom.{Bloom, set_bloom_range, check_bloom_range, clear_bloom}
use softwrap.Scm.{Scm, ntstore_bytes}
use softwrap.Scm.Bytes.{Mem, read_bytes, write_bytes, le}

abbrev pub max_lat_entries : ℕ
max_lat_entries = 65536

abbrev pub max_lat_data : ℕ
max_lat_data = max_lat_entries * 8

-- The field `value`: the bytes themselves, or the offset in `m_data` that it points to.
pub data Value : Type 0 where
  inline : List ℕ → Value
  pointer : ℕ → Value

pub record Entry : Type 0 where
  pub key : ℕ
  pub value : Value
  pub size : ℕ

-- `entries` holds the first `m_lastIndex` entries in order.
pub record Lat : Type 0 where
  pub entries : List Entry
  pub bytes : Mem
  pub last_data : ℕ
  pub bloom : Bloom
  pub delay_write_back : Bool

abbrev pub nth : List ℕ → ℕ → ℕ
nth [] i = 0
nth (x ∷ xs) zero = x
nth (x ∷ xs) (suc i) = nth xs i

-- The memory at the address `alias` of an entry.
abbrev pub alias : Mem → Value → Mem
alias area (inline xs) i = nth xs i
alias area (pointer at) i = area (at + i)

-- One turn of the loop of `readInto`, on the destination buffer `out`.
unfoldable pub read_entry : Mem → ℕ → ℕ → Entry → Mem → Mem
read_entry area src size e out =
    let from = alias area e.value in
    if e.key == src && leb size e.size
    then write_bytes 0 (read_bytes (if ltb e.size size then e.size else size) 0 from) out
    else if leb e.key src && leb src (e.key + e.size)
    then (let offset = src - e.key in
        write_bytes 0
          (read_bytes (if ltb (e.size - offset) size then e.size - offset else size) offset from)
          out)
    else if leb src e.key && ltb e.key (src + size)
    then (let destoffset = e.key - src in
        write_bytes destoffset
          (read_bytes (if ltb (size - destoffset) e.size then size - destoffset else e.size) 0 from)
          out)
    else out

unfoldable pub read_entries : Mem → ℕ → ℕ → List Entry → Mem → Mem
read_entries area src size [] out = out
read_entries area src size (e ∷ es) out =
    read_entries area src size es (read_entry area src size e out)

module _ (int_shift : ℕ → ℕ) where
  -- The buffer at `ptr` after `readInto(ptr, src, size)`, from memory `m`.
  unfoldable pub read_into : Lat → ℕ → ℕ → Mem → Mem → Mem
  unfolding read_entries read_entry
  read_into t src size m out =
      let copied = write_bytes 0 (read_bytes size src m) out in
      if check_bloom_range int_shift t.bloom src size
      then read_entries t.bytes src size t.entries copied
      else copied

  -- `src` is the content of the source buffer.
  unfoldable pub write : ℕ → List ℕ → Lat → Run Lat
  write ptr src t =
      let size = length src in
      let field = set_bloom_range int_shift t.bloom ptr size in
      if ltb (length t.entries) max_lat_entries
      then (if leb size 8
          then ok (record t {
            entries = t.entries ++ record { key = ptr; value = inline src; size = size } ∷ [];
            bloom = field;
          })
          else if ltb (t.last_data + size) max_lat_data
          then ok (record t {
            entries =
                t.entries ++ record { key = ptr; value = pointer t.last_data; size = size } ∷ [];
            bytes = write_bytes t.last_data src t.bytes;
            last_data = t.last_data + size;
            bloom = field;
          })
          else abort)
      else abort

  unfoldable pub store : ℕ → ℕ → ℕ → Lat → Run Lat
  store ptr value size t =
      if ltb (length t.entries) max_lat_entries
      then (if leb size 8
          then ok (record t {
            entries =
                t.entries ++ record { key = ptr; value = inline (le size value); size = size } ∷ [];
            bloom = set_bloom_range int_shift t.bloom ptr size;
          })
          else abort)
      else abort

unfoldable pub copy_entry_to_cache : Mem → Entry → Mem → Mem
copy_entry_to_cache area e m = write_bytes e.key (read_bytes e.size 0 (alias area e.value)) m

unfoldable pub writeback_entry : Mem → Entry → Scm → Scm
writeback_entry area e st = ntstore_bytes e.key (read_bytes e.size 0 (alias area e.value)) st

unfoldable pub copy_all : Mem → List Entry → Mem → Mem
unfolding copy_entry_to_cache
copy_all area [] m = m
copy_all area (e ∷ es) m = copy_all area es (copy_entry_to_cache area e m)

unfoldable pub writeback_all : Mem → List Entry → Scm → Scm
unfolding writeback_entry
writeback_all area [] st = st
writeback_all area (e ∷ es) st = writeback_all area es (writeback_entry area e st)

unfoldable pub restore_to_cache_hierarchy : Lat → Scm → Lat × Scm
unfolding copy_all writeback_all
restore_to_cache_hierarchy t st =
    let copied = record st { mem = copy_all t.bytes t.entries st.mem } in
    (
      record t { entries = [] },
      if t.delay_write_back then copied else writeback_all t.bytes t.entries copied,
    )

-- `onWrapOpen`
unfoldable pub on_wrap_open : Lat → Lat
on_wrap_open t = record t { entries = []; last_data = 0; bloom = clear_bloom t.bloom }
