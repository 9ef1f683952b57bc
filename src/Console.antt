-- ===== src/Console.antt =====
-- The console, xv6-os/kernel/console.c: the input interrupt with its line editing, and
-- consoleread(). A call that sleeps has released the lock; its state tells how far it has come,
-- and a call that is woken goes on from there. A character that uartputc_sync() sends is noted;
-- wakeup() and procdump() change no field of the console.
pub mod Window
pub mod Edit
pub mod Line
pub mod Read
mod Tests
use os_advanced_course.Base.{
  ℕ, zero, suc, ◌+◌, ◌-◌, ◌%◌, ◌^◌, Bool, true, false, not, ◌&&◌, ◌||◌, Option, none, some, List,
  [], ◌∷◌, ◌++◌, ltb, ◌==◌, if◌then◌else◌, update, ℤ, pos, negsuc, Run, ok, blocked, out_of_fuel,
  Cmd, gets, modify, pure, ◌>>=◌, ◌>>◌, zoom,
}
use os_advanced_course.Spinlock.{Core, acquire, release}

abbrev pub input_buf_size : ℕ
input_buf_size = 128

abbrev pub backspace : ℕ
backspace = 256

-- Control-x, for the code of an upper-case letter.
abbrev pub ctrl : ℕ → ℕ
ctrl x = x - 64

abbrev pub newline : ℕ
newline = 10

-- `cons`, with the CPU that runs the code, and the characters sent to the UART, newest first.
pub record Console : Type 0 where
  pub core : Core
  pub buf : ℕ → ℕ
  pub r : ℕ
  pub w : ℕ
  pub e : ℕ
  pub sent : List ℕ

abbrev pub on_core : {A : Type 0} → Cmd Core A → Cmd Console A
on_core = zoom (λ s. s.core) (λ s c. record s { core = c })

-- An index before another one: a `uint` wraps around.
abbrev pub index_before : ℕ → ℕ
index_before e = (e + 2 ^ 32 - 1) % 2 ^ 32

abbrev pub consputc : ℕ → Cmd Console (Unit {0})
consputc c =
    modify (λ s. record s { sent = if c == backspace then 8 ∷ 32 ∷ 8 ∷ s.sent else c ∷ s.sent })

-- cons.e--, and its echo.
abbrev pub erase : Cmd Console (Unit {0})
erase = do modify (λ s. record s { e = index_before s.e }); consputc backspace

-- The loop that kills a line, on fuel.
pub kill_line : ℕ → Cmd Console (Unit {0})
kill_line zero = λ s. out_of_fuel
kill_line (suc k) = do
  s ← gets (λ s. s)
  let rest = kill_line k
  if not (s.e == s.w) && not (s.buf (index_before s.e % input_buf_size) == newline)
      then (do erase; rest)
      else pure tt

-- The store of a character that is echoed.
pub store_key : ℕ → Cmd Console (Unit {0})
store_key c = do
  consputc c
  modify (λ s. record s { buf = update s.buf (s.e % input_buf_size) c; e = (s.e + 1) % 2 ^ 32 })
  s ← gets (λ s. s)
  if (c == newline) || ((c == ctrl b'D') || ((s.e + 2 ^ 32 - s.r) % 2 ^ 32 == input_buf_size))
      then modify (λ s. record s { w = s.e })
      else pure tt

-- The switch of consoleintr(). A line is at most as long as the buffer, which is the fuel.
pub key : ℕ → Cmd Console (Unit {0})
unfolding kill_line store_key
key c = do
  s ← gets (λ s. s)
  if c == ctrl b'P'
      then pure tt
      else if c == ctrl b'U'
      then kill_line (input_buf_size + 1)
      else if (c == ctrl b'H') || (c == 127)
      then (if s.e == s.w then pure tt else erase)
      else if not (c == 0) && ltb ((s.e + 2 ^ 32 - s.r) % 2 ^ 32) input_buf_size
      then store_key (if c == 13 then newline else c)
      else pure tt

pub consoleintr : ℕ → Cmd Console (Unit {0})
unfolding key
consoleintr c = do on_core acquire; key c; on_core release

-- A call of consoleread() in progress: the console, whether the calling process is killed, the
-- variables `n` and `target`, and the bytes that either_copyout() has stored so far, the first
-- one first.
pub record Reader : Type 0 where
  pub cons : Console
  pub killed : Bool
  pub n : ℕ
  pub target : ℕ
  pub out : List ℕ

abbrev pub on_lock : {A : Type 0} → Cmd Core A → Cmd Reader A
on_lock = zoom (λ s. s.cons.core) (λ s c. record s { cons = record (s.cons) { core = c } })

-- cons.r--
abbrev pub undo_read : Reader → Reader
undo_read s = record s { cons = record (s.cons) { r = index_before s.cons.r } }

-- The end of consoleread() after its loop.
pub end_read : Cmd Reader ℤ
end_read = do on_lock release; gets (λ s. pos (s.target - s.n))

-- The loop with `k` characters left to read, where `writable` tells whether either_copyout()
-- succeeds at the next address after `n` bytes of the call.
module _ (writable : ℕ → Bool) where
  pub consoleread_loop : ℕ → Cmd Reader ℤ
  unfolding end_read
  consoleread_loop zero s = end_read s
  consoleread_loop (suc k) s =
      let c = s.cons.buf (s.cons.r % input_buf_size) in
      let next : Reader = record s { cons = record (s.cons) { r = (s.cons.r + 1) % 2 ^ 32 } } in
      let taken : Reader = record next { n = k; out = s.out ++ c ∷ [] } in
      let rest = consoleread_loop k taken in
      if s.cons.r == s.cons.w
      then (if s.killed
          then (on_lock release >> pure (negsuc 0)) s
          else (on_lock release >> blocked) s)
      else if c == ctrl b'D'
      then end_read (if ltb s.n s.target then undo_read next else next)
      else if not (writable (s.target - s.n))
      then end_read next
      else if c == newline
      then end_read taken
      else rest

  -- consoleread(), from the start, where `n` is `target`, or from its sleep.
  pub consoleread : Cmd Reader ℤ
  unfolding consoleread_loop
  consoleread = do on_lock acquire; n ← gets (λ s. s.n); consoleread_loop n
