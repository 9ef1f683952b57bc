-- ===== src/Console/Tests.antt =====
-- A console whose indices are about to wrap around.
use os_advanced_course.Base.{
  ◌≡◌, ◌^◌, ◌-◌, refl, [], ◌∷◌, ◌==◌, true, false, if◌then◌else◌, Returns, arith,
}
use os_advanced_course.Spinlock.Nesting.{IsIdle, idle_core, idle_core-IsIdle}
use os_advanced_course.Console.{Console, Reader, consoleintr, consoleread}
use os_advanced_course.Console.Window.{window}
use os_advanced_course.Console.Edit.{ready, line, edit, IsConsole}
use os_advanced_course.Console.Line.{consoleintr-Edited}
use os_advanced_course.Console.Read.{Ends, give, consoleread-Ends}

-- "hi" and a newline are ready at the end of the range of the indices, and "x" is edited.
abbrev console : Console
console = record {
  core = idle_core;
  buf = λ i. if i == 126 then b'h' else if i == 127 then b'i' else if i == 0 then 10 else b'x';
  r = 2 ^ 32 - 2;
  w = 1;
  e = 2;
  sent = [];
}

console-IsConsole : IsConsole console
unfolding window
console-IsConsole = record {
  r = omega arith;
  w = omega arith;
  e = omega arith;
  room = omega arith;
  open_line = ((λ e. absurd (omega (arith, e))), tt);
}

consoleintr-Edited_example : Returns (consoleintr 127 console) (λ _ t.
    IsIdle t.core
    × IsConsole t
    × (ready t ≡ (edit 127 (ready console) (line console)).0)
    × (line t ≡ (edit 127 (ready console) (line console)).1))
consoleintr-Edited_example = consoleintr-Edited 127 console idle_core-IsIdle console-IsConsole

abbrev reader : Reader
reader = record { cons = console; killed = false; n = 10; target = 10; out = [] }

consoleread-Ends_example :
    Ends reader (give (λ a. true) 10 10 (ready console)) (consoleread (λ a. true) reader)
consoleread-Ends_example = consoleread-Ends (λ a. true) reader idle_core-IsIdle console-IsConsole

whole_line : (give (λ a. true) 10 10 (ready console)).bytes ≡ b'h' ∷ b'i' ∷ 10 ∷ []
unfolding give window
whole_line = refl
