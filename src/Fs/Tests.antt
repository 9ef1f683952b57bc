-- ===== src/Fs/Tests.antt =====
-- The bitmap at a concrete state.
use os_advanced_course.Base.{
  ℕ, ◌≡◌, ◌≢◌, ◌/◌, ◌<◌, refl, [], ◌∷◌, ◌==◌, true, false, if◌then◌else◌, panic, update, Returns,
  arith,
}
use os_advanced_course.Buddy.Bits.{IsBytes}
use os_advanced_course.Fs.{Fs, bpb, bblock, balloc, bfree}
use os_advanced_course.Fs.Bitmap.{is_used}
use os_advanced_course.Fs.Alloc.{IsSound, Allocated, balloc-Allocated, bfree_cases}

-- Of three blocks, 0 and 2 are in use, and 2 is that of the bitmap.
abbrev three : Fs
three = record {
  size = 3;
  bmapstart = 2;
  inodestart = 1;
  ninodes = 16;
  bytes = update (λ k i. 0) 2 (update (λ i. 0) 0 5);
  logged = [];
}

three-IsBytes : (k : ℕ) → IsBytes (three.bytes k)
three-IsBytes k i = ground arith

in_bitmap : (q : ℕ) → q < 3 → q / bpb ≡ 0
in_bitmap q l = omega arith

three-IsSound : IsSound three
three-IsSound = record { bytes = three-IsBytes; meta_used = λ q l. rw (in_bitmap q l) refl }

balloc-Allocated_example : Returns (balloc three) (Allocated 0 three)
balloc-Allocated_example = balloc-Allocated three three-IsSound

bfree_cases_example :
    (is_used three 2 ≡ true
      → Returns (bfree 2 three) (λ _ t.
        ((q : ℕ) → is_used t q ≡ (if 2 == q then false else is_used three q))
        × ((k : ℕ) → k ≢ bblock 2 three → t.bytes k ≡ three.bytes k)
        × (t.logged ≡ bblock 2 three ∷ [])))
    × (is_used three 2 ≡ false → bfree 2 three ≡ panic)
bfree_cases_example = bfree_cases 2 three three-IsSound
