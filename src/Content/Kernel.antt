-- ===== src/Content/Kernel.antt =====
-- The copies between a buffer and the kernel's own memory, with either_copyout() and
-- either_copyin() of xv6-os/kernel/proc.c for addresses that are not the user's.
pub mod Files
use Prim.Native.Nat.pow
use native.Mathlib.Nat.{div-div-eq-div-mul, mul_comm}
use os_advanced_course.Base.{
  ℕ, zero, suc, ◌+◌, ◌-◌, ◌*◌, ◌/◌, ◌%◌, ◌^◌, ◌≡◌, ◌<◌, ◌≤◌, Bool, true, false, ◌&&◌, leb, ltb,
  if◌then◌else◌, arith, refl, Cmd, Returns, ◌∙◌, ap, sym, pure, fun_ext, Bool-cases, inl, inr,
  modify, ◌>>=◌, ◌>>◌, gets, Returns_mono,
}
use os_advanced_course.Buddy.{Array}
use os_advanced_course.StringLib.{memmove}
use os_advanced_course.StringLib.Move.{memmove_lem}
use os_advanced_course.Kalloc.{Kmem}
use os_advanced_course.Vm.User.{bytes_of, on_bytes, word_at}
use os_advanced_course.Vm.Copy.{either_copyout, either_copyin}
use os_advanced_course.Content.Rounds.{CopyOut, Copied}
use os_advanced_course.Content.Write.{CopyIn}

pow_step : (k : ℕ) → 256 ^ suc k ≡ 256 * 256 ^ k
pow_step k = (λ i. pow.suc 256 k i) ∙ mul_comm (256 ^ k) 256

word_byte :
    (k a r : ℕ) (f : ℕ → ℕ)
    → ((x : ℕ) → f x < 256)
    → r < k
    → word_at k a f / 256 ^ r % 256 ≡ f (a + r)
word_byte zero a r f h l = absurd (omega arith)
word_byte (suc k) a zero f h l = low ∙ ap f (omega arith)
  where
    low : (f a + 256 * word_at k (a + 1) f) / 1 % 256 ≡ f a
    low = omega (arith, h a)
word_byte (suc k) a (suc r) f h l =
    ap (λ p. word_at (suc k) a f / p % 256) (pow_step r)
    ∙ ap (λ x. x % 256) (sym (div-div-eq-div-mul (word_at (suc k) a f) 256 (256 ^ r)))
    ∙ ap (λ x. x / 256 ^ r % 256) (omega (arith, h a))
    ∙ word_byte k (a + 1) r f h (omega (arith, l))
    ∙ ap f (omega arith)

-- The memory of words with the bytes `f`.
abbrev words_of : (ℕ → ℕ) → ℕ → ℕ
words_of f a = word_at 8 a f

bytes_of-words_of : (f : ℕ → ℕ) → ((x : ℕ) → f x < 256) → bytes_of (words_of f) ≡ f
bytes_of-words_of f h =
    fun_ext (λ x. word_byte 8 (x / 8 * 8) (x % 8) f h (omega arith) ∙ ap f (omega arith))

pub bytes_of-small : (m : ℕ → ℕ) (x : ℕ) → bytes_of m x < 256
bytes_of-small m x = omega arith

-- The `n` bytes of `b` at `at`, in the memory `m` of bytes.
abbrev place : ℕ → ℕ → (ℕ → ℕ) → (ℕ → ℕ) → ℕ → ℕ
place at n b m a = if leb at a && ltb a (at + n) then b (a - at) else m a

place-small :
    (at n : ℕ) (b m : ℕ → ℕ)
    → ((i : ℕ) → i < n → b i < 256)
    → ((x : ℕ) → m x < 256)
    → (x : ℕ) → place at n b m x < 256
place-small at n b m hb hm x = elim (Bool-cases (leb at x && ltb x (at + n))) [
  | inl e ↦ rw e (hb (x - at) (ground arith))
  | inr e ↦ rw e (hm x)
]

memmove-small :
    (dst src n : ℕ) (m : ℕ → ℕ) → ((x : ℕ) → m x < 256) → (x : ℕ) → memmove dst src n m x < 256
memmove-small dst src n m h x =
    rw (memmove_lem dst src n m x) (ground (arith, h (src + (x - dst)), h x))

-- either_copyout() to the kernel's address `dst`. The buffer with the bytes `src` stands behind the
-- range during the call, and what was in the memory at its place is put back.
unfoldable pub kernel_copyout : ℕ → ℕ → Array → Cmd Kmem Bool
unfolding either_copyout
kernel_copyout dst n src = do
  before ← gets (λ s. bytes_of s.mem)
  on_bytes (place (dst + n) n src)
  done ← either_copyout 0 false dst (dst + n) n
  on_bytes (place (dst + n) n (λ i. before (dst + n + i)))
  pure done

-- either_copyin() from the kernel's address `src`, to a buffer that stands behind the range. Its
-- bytes are what the call has left there, and the rest of the memory is as it was.
unfoldable pub kernel_copyin : ℕ → ℕ → Array → Cmd Kmem (Bool × Array)
unfolding either_copyin
kernel_copyin src n old = do
  s ← gets (λ s. s)
  done ← either_copyin 0 (src + n) false src n
  copied ← gets (λ t i. bytes_of t.mem (src + n + i))
  modify (λ _. s)
  pure (done, copied)

put_back_out :
    (dst n : ℕ) (src m : ℕ → ℕ) (x : ℕ)
    → place (dst + n) n (λ i. m (dst + n + i)) (memmove dst (dst + n) n (place (dst + n) n src m)) x
      ≡ (if leb dst x && ltb x (dst + n) then src (x - dst) else m x)
put_back_out dst n src m x =
    rw (memmove_lem dst (dst + n) n (place (dst + n) n src m) x) (ground arith)

pub copied_out :
    (dst n : ℕ) (src m : ℕ → ℕ)
    → ((i : ℕ) → i < n → src i < 256)
    → ((x : ℕ) → m x < 256)
    → (x : ℕ)
    → bytes_of
        (words_of (
          place
            (dst + n)
            n
            (λ i. m (dst + n + i))
            (bytes_of (
              words_of (memmove dst (dst + n) n (bytes_of (words_of (place (dst + n) n src m))))))))
        x
      ≡ (if leb dst x && ltb x (dst + n) then src (x - dst) else m x)
copied_out dst n src m hs hm x =
    let d = dst + n in
    let old : ℕ → ℕ = (λ i. m (d + i)) in
    let b1 : ℕ → ℕ = place d n src m in
    let b2 : ℕ → ℕ = memmove dst d n b1 in
    ap (λ b. bytes_of (words_of (place d n old (bytes_of (words_of (memmove dst d n b))))) x)
      (bytes_of-words_of b1 placed)
    ∙ ap (λ b. bytes_of (words_of (place d n old b)) x) (bytes_of-words_of b2 moved)
    ∙ ap (λ b. b x)
        (bytes_of-words_of (place d n old b2) (place-small d n old b2 (λ i _. hm (d + i)) moved))
    ∙ put_back_out dst n src m x
  where
    placed : (y : ℕ) → place (dst + n) n src m y < 256
    placed = place-small (dst + n) n src m hs hm

    moved : (y : ℕ) → memmove dst (dst + n) n (place (dst + n) n src m) y < 256
    moved = memmove-small dst (dst + n) n (place (dst + n) n src m) placed

pub copied_in :
    (src n : ℕ) (m : ℕ → ℕ) (i : ℕ)
    → ((x : ℕ) → m x < 256)
    → i < n
    → bytes_of (words_of (memmove (src + n) src n m)) (src + n + i) ≡ m (src + i)
copied_in src n m i h l =
    ap (λ b. b (src + n + i))
      (bytes_of-words_of (memmove (src + n) src n m) (memmove-small (src + n) src n m h))
    ∙ memmove_lem (src + n) src n m (src + n + i)
    ∙ inside
  where
    inside :
        (if leb (src + n) (src + n + i) && ltb (src + n + i) (src + n + n)
          then m (src + (src + n + i - (src + n)))
          else m (src + n + i))
        ≡ m (src + i)
    inside = ground (arith, l)

abbrev pub peek : Kmem → ℕ → ℕ
peek k = bytes_of k.mem

pub kernel_copyout-done :
    (dst n : ℕ) (src : Array) (s : Kmem)
    → Returns (kernel_copyout dst n src s) (λ done _. done ≡ true)
unfolding kernel_copyout either_copyout
kernel_copyout-done dst n src s = refl

pub kernel_copyout-Copied :
    (dst n : ℕ) (src : Array) (s : Kmem)
    → ((i : ℕ) → i < n → src i < 256)
    → Returns
        (kernel_copyout dst n src s)
        (λ done t. (done ≡ true) × Copied (peek s) (peek t) dst n src)
unfolding kernel_copyout either_copyout
kernel_copyout-Copied dst n src s small = (
  refl,
  record {
    inside = λ i l.
        copied_out dst n src (peek s) small (bytes_of-small s.mem) (dst + i) ∙ ground (arith, l);
    outside =
        λ x o. copied_out dst n src (peek s) small (bytes_of-small s.mem) x ∙ ground (arith, o);
  },
)

pub kernel_copyin_lem :
    (src n : ℕ) (old : Array) (s : Kmem)
    → Returns (kernel_copyin src n old s) (λ r t.
      (r.0 ≡ true)
      × (t ≡ s)
      × ((i : ℕ) → i < n → r.1 i < 256)
      × ((i : ℕ) → i < n → r.1 i ≡ peek s (src + i)))
unfolding kernel_copyin either_copyin
kernel_copyin_lem src n old s = (
  refl,
  refl,
  λ i l. bytes_of-small (words_of (memmove (src + n) src n (peek s))) (src + n + i),
  λ i l. copied_in src n (peek s) i (bytes_of-small s.mem) l,
)

-- The program's own copies keep the laws of Rounds and Write.
abbrev pub kernel_out : CopyOut Kmem
kernel_out = record {
  peek = peek;
  copyout = kernel_copyout;
  copied = λ dst n src s small.
      Returns_mono _ (kernel_copyout dst n src s) (kernel_copyout-Copied dst n src s small)
        (λ done t h _. h.1);
}

abbrev pub kernel_in : CopyIn Kmem
kernel_in = record {
  peek = peek;
  copyin = kernel_copyin;
  copied = λ src n old s.
      Returns_mono _ (kernel_copyin src n old s) (kernel_copyin_lem src n old s)
        (λ r t h. (h.1, h.2, λ _. h.3));
}
