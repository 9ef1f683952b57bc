-- ===== src/Pipe/Tests.antt =====
-- Pipes on small inputs.
use os_advanced_course.Base.{
  ℕ, ◌+◌, ◌%◌, ◌≡◌, Bool, true, false, ◌&&◌, refl, some, Option, arith, ◌==◌, if◌then◌else◌, ok,
  blocked, negsuc, [],
}
use os_advanced_course.Spinlock.Nesting.{idle_core, idle_core-IsIdle}
use os_advanced_course.Pipe.{Pipe, Call, pipewrite, piperead}
use os_advanced_course.Pipe.Queue.{IsPipe}
use os_advanced_course.Pipe.Write.{free, Write, pipewrite-Write}
use os_advanced_course.Pipe.Read.{Read, piperead_cases}

abbrev three : Pipe
three = record {
  core = idle_core;
  bytes = λ i. i;
  nread = 4294967290;
  nwrite = 4294967293;
  readopen = true;
  writeopen = true;
}

three-IsPipe : IsPipe three
three-IsPipe = record { nread = omega arith; nwrite = omega arith; count = omega arith }

abbrev start : Call
start = record { pipe = three; killed = false; i = 0; out = [] }

abbrev letters : ℕ → Option ℕ
letters a = some (65 + a % 26)

pipewrite-Write_example : Write letters 10 5 start (pipewrite letters 10 5 start)
pipewrite-Write_example =
    pipewrite-Write letters 10 5 start idle_core-IsIdle three-IsPipe (omega arith)

abbrev low : ℕ → Bool
low a = a % 2 == 0

piperead_cases_example :
    ((((three.nread == three.nwrite) && three.writeopen) ≡ true)
      → piperead low 10 5 start
        ≡ (if false then ok (negsuc 0) (free start idle_core) else blocked (free start idle_core)))
    × ((((three.nread == three.nwrite) && three.writeopen) ≡ false)
        → Read low 10 5 start (piperead low 10 5 start))
piperead_cases_example = piperead_cases low 10 5 start idle_core-IsIdle three-IsPipe refl
