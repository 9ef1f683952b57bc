-- ===== src/Fs.antt =====
-- Blocks of the file system, xv6-os/kernel/fs.c and xv6-os/kernel/fs.h: the bitmap of free
-- blocks. The buffer cache is seen as the contents that bread() returns, by block and byte; a
-- log_write() is noted.
pub mod Bitmap
pub mod Alloc
mod Tests
use os_advanced_course.Base.{
  ℕ, zero, suc, ◌+◌, ◌-◌, ◌*◌, ◌/◌, ◌%◌, ◌^◌, Bool, not, Option, none, some, List, ◌∷◌, ltb, ◌==◌,
  if◌then◌else◌, update, out_of_fuel, Cmd, gets, modify, panicking, pure, ◌>>=◌, ◌>>◌,
}
use Prim.Native.Nat.{bit_and, bit_or}
use os_advanced_course.Buddy.{Array}

abbrev pub bsize : ℕ
bsize = 1024

abbrev pub bpb : ℕ
bpb = bsize * 8

-- The fields of the superblock that the code uses, the contents of the blocks, and the blocks
-- given to log_write(), newest first.
pub record Fs : Type 0 where
  pub size : ℕ
  pub bmapstart : ℕ
  pub inodestart : ℕ
  pub ninodes : ℕ
  pub bytes : ℕ → Array
  pub logged : List ℕ

abbrev pub bblock : ℕ → Fs → ℕ
bblock b s = b / bpb + s.bmapstart

abbrev pub log_write : ℕ → Array → Cmd Fs (Unit {0})
log_write b d = modify (λ s. record s { bytes = update s.bytes b d; logged = b ∷ s.logged })

pub bzero : ℕ → Cmd Fs (Unit {0})
bzero bno = do s ← gets (λ s. s); log_write bno (λ i. if ltb i bsize then 0 else s.bytes bno i)

-- The bit of a block in its block of the bitmap, and that block once it is set or cleared.
abbrev pub bit_free : Array → ℕ → Bool
bit_free d bi = bit_and (d (bi / 8)) (2 ^ (bi % 8)) == 0

abbrev pub mark : Array → ℕ → Array
mark d bi = update d (bi / 8) (bit_or (d (bi / 8)) (2 ^ (bi % 8)))

abbrev pub unmark : Array → ℕ → Array
unmark d bi = update d (bi / 8) (bit_and (d (bi / 8)) (255 - 2 ^ (bi % 8)))

-- The inner loop of balloc() from bit `bi` on.
pub balloc_block : ℕ → ℕ → ℕ → Cmd Fs (Option ℕ)
unfolding bzero
balloc_block zero b bi = pure none
balloc_block (suc k) b bi =
    let rest = balloc_block k b (bi + 1) in
    let found = (do
      s ← gets (λ s. s)
      log_write (bblock b s) (mark (s.bytes (bblock b s)) bi)
      bzero (b + bi)
      pure (some (b + bi))) in
    do
      s ← gets (λ s. s)
      if not (ltb (b + bi) s.size)
          then pure none
          else if bit_free (s.bytes (bblock b s)) bi
          then found
          else rest

-- What the outer loop does after a block of the bitmap.
abbrev pub found_or : Cmd Fs ℕ → Option ℕ → Cmd Fs ℕ
found_or rest none = rest
found_or rest (some x) = pure x

-- The outer loop, on fuel.
pub balloc_loop : ℕ → ℕ → Cmd Fs ℕ
balloc_loop zero b = λ s. out_of_fuel
balloc_loop (suc k) b =
    let rest = balloc_loop k (b + bpb) in
    let round = (do r ← balloc_block bpb b 0; found_or rest r) in
    do s ← gets (λ s. s); if ltb b s.size then round else pure 0

-- A round for each block of the bitmap, and one for the last test.
pub balloc : Cmd Fs ℕ
unfolding balloc_loop
balloc = do s ← gets (λ s. s); balloc_loop (s.size / bpb + 2) 0

pub bfree : ℕ → Cmd Fs (Unit {0})
bfree b = do
  s ← gets (λ s. s)
  let bi = b % bpb
  if bit_free (s.bytes (bblock b s)) bi then panicking else pure tt
  log_write (bblock b s) (unmark (s.bytes (bblock b s)) bi)
